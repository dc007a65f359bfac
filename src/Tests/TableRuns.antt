-- ===== src/Tests/TableRuns.antt =====
-- The translation table at work.
use oakestra_net.Base.{
  ◌≡◌, ◌↔◌, refl, true, Option, none, List, [], ◌∷◌, Mem, Perm, codes, filter, arith, returns,
}
use oakestra_net.Table.{
  TableManager, Error, is_valid, match_name, remove_by_job_name, search_by_service_ip,
  search_by_job_name,
}
use oakestra_net.Table.Bag.{
  view, add_call, remove_nsip_call, remove_job_call, Steps, perform_all, perform_all-Steps,
}
use oakestra_net.Table.Names.{IsWellFormed, is_valid_iff}
use oakestra_net.Table.Remove.{keeps, remove_by_job_name_lem}
use oakestra_net.Table.Search.{
  serves, search_by_service_ip_iff, search_by_job_name-remove_by_job_name,
}
use oakestra_net.Tests.Samples.{samples, instance_of, ns_ip, service_ip}

is_valid_iff_example : (is_valid (instance_of 3) ≡ true) ↔ IsWellFormed (instance_of 3)
is_valid_iff_example = is_valid_iff (instance_of 3)

is_valid_run : is_valid (instance_of 3) ≡ true
unfolding is_valid match_name
is_valid_run = refl

remove_by_job_name_lem_example :
    (t' : TableManager) × (remove_by_job_name samples (codes "a.b.c.d") ≡ returns (t', none))
    × Perm (filter (keeps (codes "a.b.c.d")) samples.translation_table) t'.translation_table
remove_by_job_name_lem_example = remove_by_job_name_lem samples (codes "a.b.c.d")

search_by_service_ip_iff_example :
    Mem (instance_of 4) (search_by_service_ip samples service_ip)
    ↔ (Mem (instance_of 4) samples.translation_table × (serves service_ip (instance_of 4) ≡ true))
search_by_service_ip_iff_example = search_by_service_ip_iff samples service_ip (instance_of 4)

search_by_job_name-remove_by_job_name_example :
    (t' : TableManager) × (remove_by_job_name samples (codes "a.b.c.d") ≡ returns (t', none))
    × (search_by_job_name t' (codes "a.b.c.d") ≡ [])
    × Perm (search_by_job_name samples (codes "x.b.c.d")) (search_by_job_name t' (codes "x.b.c.d"))
search_by_job_name-remove_by_job_name_example =
    search_by_job_name-remove_by_job_name samples (codes "a.b.c.d") (codes "x.b.c.d")
      (λ e. ground arith)

perform_all-Steps_example :
    (t' : TableManager) × (os : List (Option Error)) × (perform_all
        (add_call (instance_of 6)
          ∷ remove_nsip_call (ns_ip 4)
          ∷ remove_job_call (codes "a.b.c.d")
          ∷ [])
        samples
      ≡ returns (t', os))
    × Steps
        (view samples)
        (add_call (instance_of 6)
          ∷ remove_nsip_call (ns_ip 4)
          ∷ remove_job_call (codes "a.b.c.d")
          ∷ [])
        os
        (view t')
perform_all-Steps_example =
    perform_all-Steps
      (add_call (instance_of 6)
        ∷ remove_nsip_call (ns_ip 4)
        ∷ remove_job_call (codes "a.b.c.d")
        ∷ [])
      samples
