-- ===== src/Mqtt.antt =====
-- The answers to table queries: node-net-manager/mqtt/Tablequery.go, and their translation into
-- table entries in node-net-manager/env/tableQueryRequests.go. `net.ParseIP` is a parameter.
pub mod Interests
pub mod Names
pub mod Pending
pub mod Queries
pub mod Client
use oakestra_net.Base.Words.{split}
use oakestra_net.Base.{
  ℕ, ◌+◌, Bool, true, false, not, ◌&&◌, Option, none, some, List, [], ◌∷◌, ◌++◌, map, Bytes, ◌==◌,
  ◌=ᵇ◌, codes, if◌then◌else◌,
}
use oakestra_net.Base.Int.{ℤ, pos}
use oakestra_net.Net.{Ip}
use oakestra_net.Table.{TableEntry, ServiceIp, ServiceIpType, instance_number, closest, round_robin}

pub record Sip : Type 0 where
  pub type_name : Bytes
  pub address : Bytes
  pub address_v6 : Bytes

pub record ServiceInstance : Type 0 where
  pub instance_nr : ℤ
  pub namespace_ip : Bytes
  pub namespace_ipv6 : Bytes
  pub host_ip : Bytes
  pub host_port : ℤ
  pub service_ip : List Sip

pub record TableQueryResponse : Type 0 where
  pub job_name : Bytes
  pub instance_list : List ServiceInstance
  pub query_key : Bytes

-- `toServiceIP`: a later match of the type replaces an earlier one, and no match leaves 0.
abbrev pub ip_type_of : Bytes → ServiceIpType
ip_type_of t =
    if t =ᵇ codes "InstanceNumber"
    then instance_number
    else if t =ᵇ codes "Closest"
    then closest
    else if t =ᵇ codes "RR"
    then round_robin
    else instance_number

abbrev pub to_service_ip : (Bytes → Ip) → Sip → ServiceIp
to_service_ip parse_ip s = record {
  ip_type = ip_type_of s.type_name;
  address = parse_ip s.address;
  address_v6 = parse_ip s.address_v6;
}

-- The entry of one instance.
abbrev pub entry_of :
    (Bytes → Ip) → Bytes → Bytes → Bytes → Bytes → Bytes → ServiceInstance → TableEntry
entry_of parse_ip job a b c d i = record {
  job_name = job;
  appname = a;
  appns = b;
  servicename = c;
  servicenamespace = d;
  instancenumber = i.instance_nr;
  cluster = pos 0;
  nodeip = parse_ip i.host_ip;
  nodeport = i.host_port;
  nsip = parse_ip i.namespace_ip;
  nsipv6 = parse_ip i.namespace_ipv6;
  service_ip = map (to_service_ip parse_ip) i.service_ip;
}

parse_names : (Bytes → Ip) → TableQueryResponse → List Bytes → Option (List TableEntry)
parse_names parse_ip r [] = none
parse_names parse_ip r (a ∷ []) = none
parse_names parse_ip r (a ∷ b ∷ []) = none
parse_names parse_ip r (a ∷ b ∷ c ∷ []) = none
parse_names parse_ip r (a ∷ b ∷ c ∷ d ∷ []) =
    some (map (entry_of parse_ip r.job_name a b c d) r.instance_list)
parse_names parse_ip r (a ∷ b ∷ c ∷ d ∷ e ∷ rest) = none

-- `responseParser`, `none` for the error.
unfoldable pub response_parser : (Bytes → Ip) → TableQueryResponse → Option (List TableEntry)
unfolding parse_names
response_parser parse_ip r = parse_names parse_ip r (split b'.' r.job_name)

-- `TableQueryRequestCache`. A request has one channel, a number here; `responses` is what was put
-- into each. A list of channels in the code never has more than one.
pub record QueryCache : Type 0 where
  pub siprequests : Bytes → Option ℕ
  pub responses : ℕ → List TableQueryResponse
  pub made : ℕ

-- The part of `tableQueryRequestBlocking` before it waits: the channel to wait on, or `none` for an
-- error. `registered` is `MqttIsInterestRegistered(reqname)`. The wait ends with the first response
-- of the channel or after 5 seconds, and changes nothing here.
unfoldable pub start_query : QueryCache → Bool → Bool → Bytes → Bytes → QueryCache × Option ℕ
start_query q registered force sip sname =
    let reqname = sip ++ sname in
    elim (registered && not force) [
      | true ↦ (q, none)
      | false ↦ elim (q.siprequests reqname) [
        | some i ↦ (q, none)
        | none ↦ (
          record {
            siprequests = λ k. if k =ᵇ reqname then some q.made else q.siprequests k;
            responses = λ j. if j == q.made then [] else q.responses j;
            made = q.made + 1;
          },
          some q.made,
        )
      ]
    ]

-- The keys of a response.
abbrev pub sip_keys : List Sip → List Bytes
sip_keys [] = []
sip_keys (s ∷ ss) = s.address ∷ s.address_v6 ∷ sip_keys ss

abbrev pub instance_keys : List ServiceInstance → List Bytes
instance_keys [] = []
instance_keys (i ∷ is) = sip_keys i.service_ip ++ instance_keys is

abbrev pub query_keys : TableQueryResponse → List Bytes
query_keys r = r.job_name ∷ r.query_key ∷ instance_keys r.instance_list

-- One round of the loop of `TablequeryResultMqttHandler`. The channel has room for 10 responses, and
-- gets one.
unfoldable pub notify : TableQueryResponse → Bytes → QueryCache → QueryCache
notify r key q = elim (q.siprequests key) [
  | none ↦ q
  | some i ↦ record q {
    siprequests = λ k. if k =ᵇ key then none else q.siprequests k;
    responses = λ j. if j == i then q.responses j ++ r ∷ [] else q.responses j;
  }
]

unfoldable pub notify_all : TableQueryResponse → List Bytes → QueryCache → QueryCache
unfolding notify
notify_all r [] q = q
notify_all r (key ∷ keys) q = notify_all r keys (notify r key q)

abbrev pub table_query_result : TableQueryResponse → QueryCache → QueryCache
table_query_result r q = notify_all r (query_keys r) q
