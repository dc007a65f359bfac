-- ===== src/Table.antt =====
-- node-net-manager/TableEntryCache/serviceTranslationTable.go: the service translation table.
-- Each method holds the table's lock from its first read to its return, so it is one step of the
-- model. The log lines are left out. A method returns the new table and its result; an `error` is
-- an optional value, `none` for nil.
pub mod Names
pub mod Remove
pub mod Search
pub mod Bag
use oakestra_net.Base.{
  ℕ, zero, suc, ◌+◌, Bool, true, false, not, ◌&&◌, ◌||◌, Option, none, some, List, [], ◌∷◌, ◌++◌,
  Bytes, length, get_elem?, swap_remove, ltb, leb, ◌=ᵇ◌, if◌then◌else◌, Outcome, returns, panic,
  ◌>>=◌,
}
use oakestra_net.Base.Int.{ℤ, pos, negsuc, is_neg}
use oakestra_net.Net.{Ip, nil, is_nil, equal}

pub data ServiceIpType : Type 0 where
  instance_number closest round_robin : ServiceIpType

pub record ServiceIp : Type 0 where
  pub ip_type : ServiceIpType
  pub address : Ip
  pub address_v6 : Ip

pub record TableEntry : Type 0 where
  pub job_name : Bytes
  pub appname : Bytes
  pub appns : Bytes
  pub servicename : Bytes
  pub servicenamespace : Bytes
  pub instancenumber : ℤ
  pub cluster : ℤ
  pub nodeip : Ip
  pub nodeport : ℤ
  pub nsip : Ip
  pub nsipv6 : Ip
  pub service_ip : List ServiceIp

-- `TableEntry{}`.
abbrev pub zero_entry : TableEntry
zero_entry = record {
  job_name = [];
  appname = [];
  appns = [];
  servicename = [];
  servicenamespace = [];
  instancenumber = pos 0;
  cluster = pos 0;
  nodeip = nil;
  nodeport = pos 0;
  nsip = nil;
  nsipv6 = nil;
  service_ip = [];
}

pub record TableManager : Type 0 where
  pub translation_table : List TableEntry

pub data Error : Type 0 where
  invalid_entry entry_not_found : Error

abbrev pub new_table_manager : TableManager
new_table_manager = record { translation_table = [] }

-- A byte of the class `[a-zA-Z0-9]`.
abbrev pub is_alnum : ℕ → Bool
is_alnum c = leb b'a' c && leb c b'z' || leb b'A' c && leb c b'Z' || leb b'0' c && leb c b'9'

abbrev pub all_alnum : Bytes → Bool
all_alnum [] = true
all_alnum (c ∷ cs) = is_alnum c && all_alnum cs

-- `r.MatchString(s)` for the expression `^[a-zA-Z0-9]{1,30}$`.
unfoldable pub match_name : Bytes → Bool
match_name s = all_alnum s && leb 1 (length s) && leb (length s) 30

unfoldable pub is_valid : TableEntry → Bool
is_valid entry =
    if not (match_name entry.appname)
    then false
    else if not (match_name entry.appns)
    then false
    else if not (match_name entry.servicename)
    then false
    else if not (match_name entry.servicenamespace)
    then false
    else if is_neg entry.instancenumber
    then false
    else if is_neg entry.cluster
    then false
    else if is_nil entry.nodeip
    then false
    else if is_nil entry.nsip
    then false
    else if is_nil entry.nsipv6
    then false
    else if ltb (length entry.service_ip) 1
    then false
    else true

unfoldable pub add : TableManager → TableEntry → TableManager × Option Error
add t entry =
    if is_valid entry
    then (record t { translation_table = t.translation_table ++ entry ∷ [] }, none)
    else (t, some invalid_entry)

-- The test of the loops over the table by namespace address, IPv4 or IPv6.
abbrev pub has_ns_ip : Ip → TableEntry → Bool
has_ns_ip ip e = equal e.nsip ip || equal e.nsipv6 ip

-- `t[index]` is read first, so an index past the end panics.
unfoldable pub remove_by_index : TableManager → ℤ → Outcome (TableManager × Option Error)
remove_by_index t (pos index) = elim (get_elem? t.translation_table index) [
  | none ↦ panic
  | some e ↦ returns (record t { translation_table = swap_remove t.translation_table index }, none)
]
remove_by_index t (negsuc n) = returns (t, some entry_not_found)

-- The index of the first entry that has the address, from `i` on; -1 if there is none.
unfoldable pub find_ns_ip : Ip → ℕ → List TableEntry → ℤ
find_ns_ip ip i [] = negsuc 0
find_ns_ip ip i (e ∷ es) =
    let rest = find_ns_ip ip (i + 1) es in if has_ns_ip ip e then pos i else rest

unfoldable pub remove_by_nsip : TableManager → Ip → Outcome (TableManager × Option Error)
unfolding remove_by_index find_ns_ip
remove_by_nsip t nsip = remove_by_index t (find_ns_ip nsip 0 t.translation_table)

-- The loop of `RemoveByJobName` with `elems - i` rounds left: a round either moves `i` on or takes
-- one off `elems`, and the loop ends when there is none left.
unfoldable pub remove_job_loop :
    Bytes → ℕ → ℕ → TableManager → Outcome (TableManager × Option Error)
unfolding remove_by_index
remove_job_loop jobname zero i t = returns (t, none)
remove_job_loop jobname (suc k) i t = elim (get_elem? t.translation_table i) [
  | none ↦ panic
  | some e ↦ elim (e.job_name =ᵇ jobname) [
    | true ↦ remove_by_index t (pos i) >>= λ r. elim r.1 [
      | some err ↦ returns (r.0, some err)
      | none ↦ remove_job_loop jobname k i r.0
    ]
    | false ↦ remove_job_loop jobname k (i + 1) t
  ]
]

unfoldable pub remove_by_job_name : TableManager → Bytes → Outcome (TableManager × Option Error)
unfolding remove_job_loop
remove_by_job_name t jobname = remove_job_loop jobname (length t.translation_table) 0 t

abbrev pub has_service_ip : Ip → ServiceIp → Bool
has_service_ip ip s = equal s.address ip || equal s.address_v6 ip

-- The inner loop: the entry is appended once for each of its service addresses that fits.
abbrev pub append_each : Ip → TableEntry → List ServiceIp → List TableEntry
append_each ip e [] = []
append_each ip e (s ∷ ss) =
    let rest = append_each ip e ss in if has_service_ip ip s then e ∷ rest else rest

search_service_ip : Ip → List TableEntry → List TableEntry
search_service_ip ip [] = []
search_service_ip ip (e ∷ es) = append_each ip e e.service_ip ++ search_service_ip ip es

unfoldable pub search_by_service_ip : TableManager → Ip → List TableEntry
unfolding search_service_ip
search_by_service_ip t ip = search_service_ip ip t.translation_table

search_ns_ip : Ip → List TableEntry → TableEntry × Bool
search_ns_ip ip [] = (zero_entry, false)
search_ns_ip ip (e ∷ es) =
    let rest = search_ns_ip ip es in if has_ns_ip ip e then (e, true) else rest

unfoldable pub search_by_ns_ip : TableManager → Ip → TableEntry × Bool
unfolding search_ns_ip
search_by_ns_ip t ip = search_ns_ip ip t.translation_table

search_node_ip : Ip → List TableEntry → List TableEntry
search_node_ip ip [] = []
search_node_ip ip (e ∷ es) =
    let rest = search_node_ip ip es in if equal e.nodeip ip then e ∷ rest else rest

unfoldable pub search_by_node_ip : TableManager → Ip → List TableEntry
unfolding search_node_ip
search_by_node_ip t ip = search_node_ip ip t.translation_table

search_job_name : Bytes → List TableEntry → List TableEntry
search_job_name jobname [] = []
search_job_name jobname (e ∷ es) =
    let rest = search_job_name jobname es in if e.job_name =ᵇ jobname then e ∷ rest else rest

unfoldable pub search_by_job_name : TableManager → Bytes → List TableEntry
unfolding search_job_name
search_by_job_name t jobname = search_job_name jobname t.translation_table

unfoldable pub is_namespace_still_valid : Ip → List TableEntry → Bool
is_namespace_still_valid nsip [] = false
is_namespace_still_valid nsip (e ∷ es) =
    let rest = is_namespace_still_valid nsip es in if has_ns_ip nsip e then true else rest
