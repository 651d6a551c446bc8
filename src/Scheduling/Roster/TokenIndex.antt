-- ===== src/Scheduling/Roster/TokenIndex.antt =====
-- services/scheduling/internal/tokenindex/index.go, and the fill of the index at the start of the service.
use sreon_call.Prelude.{String, str_eq, List, [], ◌∷◌, Bool, not, ok, filter}
use sreon_call.Effects.{Io, call, pure}
use sreon_call.Scheduling.Roster.{TokenHashEntry, Roster}

abbrev pub has_hash : String → TokenHashEntry → Bool
has_hash hash e = str_eq e.hash hash

abbrev pub put : TokenHashEntry → List TokenHashEntry → List TokenHashEntry
put e entries = e ∷ filter (λ x. not (has_hash e.hash x)) entries

unfoldable pub set : String → String → Io Roster (Unit {0})
set hash tenant_id =
    call
      λ s. (ok tt, record s { index = put (record { hash = hash; tenant_id = tenant_id }) s.index })

abbrev pub put_all : List TokenHashEntry → List TokenHashEntry → List TokenHashEntry
put_all [] entries = entries
put_all (e ∷ es) entries = put_all es (put e entries)

-- One pipeline; without entries nothing is sent.
unfoldable pub set_many : List TokenHashEntry → Io Roster (Unit {0})
set_many [] = pure tt
set_many (e ∷ es) = call λ s. (ok tt, record s { index = put_all (e ∷ es) s.index })

unfoldable pub del : String → Io Roster (Unit {0})
del hash = call λ s. (ok tt, record s { index = filter (λ x. not (has_hash hash x)) s.index })
