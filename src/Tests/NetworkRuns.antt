-- ===== src/Tests/NetworkRuns.antt =====
-- Names of interfaces, default routes and masquerading.
use oakestra_net.Base.{
  true, Mem, ◌↔◌, ℕ, zero, suc, ◌+◌, ◌*◌, ◌/◌, ◌≤◌, ◌≡◌, ◌⊎◌, ◌==◌, refl, false, Option, none, some,
  [], ◌∷◌, Bytes, codes, any, length, take, if◌then◌else◌, arith, returns, panic,
}
use oakestra_net.Base.Int.{pos}
use oakestra_net.Network.Filter.{v4, v6, interface_rules, act, iptable_flush_all}
use oakestra_net.Network.Filter.IpTable.{GoIptables, ip_tables, perform_call, new_oakestra_ip_table}
use oakestra_net.Network.Filter.Masquerading.{rule, is_further, interface_rules_iff}
use oakestra_net.Network.Hash.{Hashing, name_unique_hash}
use oakestra_net.Network.Hash.Length.{doubled, name_unique_hash-length}
use oakestra_net.Network.Interfaces.{Link, default_route}
use oakestra_net.Network.Interfaces.Default.{IsOn, is_default, default_route_cases}

abbrev letters : ℕ → Bytes
letters zero = []
letters (suc n) = 97 ∷ letters n

length-letters : (n : ℕ) → length (letters n) ≡ n
length-letters zero = refl
length-letters (suc n) = omega (arith, length-letters n)

abbrev hashing : Hashing
hashing = record {
  sha1 = λ b. letters 20;
  length-sha1 = λ b. refl;
  url_encode = λ b. letters (4 * ((length b + 2) / 3));
  length-url_encode = λ b. length-letters (4 * ((length b + 2) / 3));
}

name_unique_hash-length_example :
    (k : ℕ) × (s : Bytes) × (name_unique_hash hashing (codes "now") (codes "a") (pos 30)
      ≡ some (returns s))
    × (length s ≡ 30)
    × (s ≡ take 30 (hashing.url_encode (doubled k (letters 20))))
name_unique_hash-length_example = name_unique_hash-length hashing (codes "now") (codes "a") 30

abbrev link_names : ℕ → Option Bytes
link_names i = if i == 2 then some (codes "eth0") else none

default_route_cases_example :
    ((l : Link) × (default_route link_names (codes "eth0") (some (1 ∷ 2 ∷ [])) ≡ some l)
      × IsOn link_names (codes "eth0") (1 ∷ 2 ∷ []) l
      × ((l.name ≡ codes "eth0") ⊎ ((codes "eth0" ≡ []) × ((1 ∷ 2 ∷ []) ≡ l.index ∷ []))))
    ⊎ ((default_route link_names (codes "eth0") (some (1 ∷ 2 ∷ [])) ≡ none)
        × ((any (is_default link_names (codes "eth0")) (1 ∷ 2 ∷ []) ≡ false)
            ⊎ ((codes "eth0" ≡ []) × (2 ≤ length {A = ℕ} (1 ∷ 2 ∷ [])))))
default_route_cases_example = default_route_cases link_names (codes "eth0") (1 ∷ 2 ∷ [])

interface_rules_iff_example :
    Mem (rule (codes "10.19.1.1/26") (codes "fc00::1/120") (codes "eth0") v6 (codes "wlan0")) (
      interface_rules
        (codes "10.19.1.1/26")
        (codes "fc00::1/120")
        (codes "eth0")
        (codes "lo" ∷ codes "eth0" ∷ codes "wlan0" ∷ []))
    ↔ (Mem (codes "wlan0") (codes "lo" ∷ codes "eth0" ∷ codes "wlan0" ∷ [])
        × (is_further (codes "eth0") (codes "wlan0") ≡ true))
interface_rules_iff_example =
    interface_rules_iff (codes "10.19.1.1/26") (codes "fc00::1/120") (codes "eth0") v6
      (codes "wlan0") (codes "lo" ∷ codes "eth0" ∷ codes "wlan0" ∷ [])

-- A library that counts its calls and refuses to make the tables of IPv6.
abbrev counting : GoIptables
counting = record {
  World = ℕ;
  new_with_protocol = λ v w. elim v [ v4 ↦ (w, false) | v6 ↦ (w, true) ];
  lib_append = λ v t c p w. (w + 1, false);
  lib_append_unique = λ v t c p w. (w + 1, false);
  lib_delete = λ v t c p w. (w + 10, true);
  clear_and_delete_chain = λ v t c w. (w + 100, false);
  new_chain = λ v t c w. (w + 1000, false);
  os_write_file = λ p t w. (w, false);
  exec_run = λ c w. (w, false);
  net_interfaces = λ w. [];
}

-- The errors of the deletions are dropped.
flush_run : act (ip_tables counting) iptable_flush_all 0 ≡ returns 240
unfolding act perform_call
flush_run = refl

new_oakestra_ip_table_fails : new_oakestra_ip_table counting v6 0 ≡ panic
unfolding new_oakestra_ip_table
new_oakestra_ip_table_fails = refl
