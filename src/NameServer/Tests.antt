-- ===== src/NameServer/Tests.antt =====
-- A name server that knows one name, and whose queues are empty.
use cs.Base.{ℕ, ◌≡◌, ◌≢◌, refl, arith, none, some, [], ◌∷◌, replicate, if◌then◌else◌, ◌==◌}
use cs.Ring.{Ring}
use cs.Ring.Refine.{Holds}
use cs.NameServer.{NameServer, whois, register_as, answers, serve, ns_dne}
use cs.NameServer.Serve.{register_then_whois, whois_of_empty}

abbrev storage : Ring ℕ
storage = record { buf = replicate 5 0; start = 0; stop = 0; size = 0 }

storage-Holds : Holds 5 storage []
storage-Holds = record { valid = ground arith; count = refl; entry = λ i h. elim h [ ] }

abbrev server : NameServer
server = record {
  store = record { entries = λ i. if i == 3 then 9 else ns_dne; size = 1 };
  name_q = λ i. storage;
}

abbrev fresh : NameServer
fresh = record { store = record { entries = λ i. ns_dne; size = 0 }; name_q = λ i. storage }

register_then_whois_example :
    (ns : NameServer) × (serve server 12 (register_as 4) ≡ some (answers 12 0 [], some ns))
    × Holds 5 (ns.name_q 4) []
    × (serve ns 20 (whois 4) ≡ some ((20, 12) ∷ [], some ns))
    × ((i : ℕ)
        → i ≢ 4
        → (ns.store.entries i ≡ server.store.entries i) × (ns.name_q i ≡ server.name_q i))
register_then_whois_example =
    register_then_whois server 12 4 20 [] (omega arith) (omega arith) (omega arith) storage-Holds

whois_of_empty_example : serve fresh 20 (whois 4) ≡ none
whois_of_empty_example = whois_of_empty fresh 20 4 refl
