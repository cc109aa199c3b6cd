-- ===== src/Vk/Handlers/Counting.antt =====
-- The providers that a status counts, and the services that a heartbeat reports.
use orv.Base.{ℕ, ◌+◌, ◌≡◌, arith, String, List, [], ◌∷◌, ◌++◌, text_eq, ◌==◌, if◌then◌else◌}
use orv.Base.Map.{Map, lookup, lookup-insert, lookup-empty}
use orv.Vk.State.{Leaf}
use orv.Vk.Handlers.Services.{Refreshed, refresh_service, refresh_services}
use orv.Vk.Handlers.Status.{
  Snapshot, count_of, count_service, count_services, count_children, offered_lists, status_body,
}

-- How often a service stands in a list.
unfoldable pub occurrences : String → List String → ℕ
occurrences t [] = 0
occurrences t (s ∷ ss) = let rest = occurrences t ss in if s == t then rest + 1 else rest

-- How often it stands in the lists of all children.
unfoldable pub offers_of : String → List (List String) → ℕ
offers_of t [] = 0
offers_of t (ss ∷ rest) = occurrences t ss + offers_of t rest

count-count_services :
    (t : String) (ss : List String) (m : Map String ℕ)
    → count_of (lookup t (count_services ss m)) ≡ count_of (lookup t m) + occurrences t ss
unfolding count_services occurrences count_service
count-count_services t [] m = ground arith
count-count_services t (s ∷ ss) m = ground (
  arith,
  text_eq.beq_iff s t,
  count-count_services t ss (count_service s m),
  lookup-insert s t (count_of (lookup s m) + 1) m,
)

count-count_children :
    (t : String) (rest : List (List String)) (m : Map String ℕ)
    → count_of (lookup t (count_children rest m)) ≡ count_of (lookup t m) + offers_of t rest
unfolding count_children offers_of
count-count_children t [] m = ground arith
count-count_children t (ss ∷ rest) m =
    ground (arith, count-count_services t ss m, count-count_children t rest (count_services ss m))

-- The number that a status gives for a service is that of the child VKs and leaves of the snapshot
-- that offer it, each as often as it lists the service; it is 0 for a service that is not in it.
pub status_body-services :
    (s : Snapshot) (t : String)
    → count_of (lookup t (status_body s).services)
      ≡ offers_of t (offered_lists s).0 + offers_of t (offered_lists s).1
unfolding status_body
status_body-services s t = ground (
  arith,
  count-count_children t (offered_lists s).1 (count_children (offered_lists s).0 []),
  count-count_children t (offered_lists s).0 [],
  lookup-empty {V = ℕ} t,
)

occurrences_end :
    (t s : String) (ss : List String)
    → occurrences t (ss ++ s ∷ []) ≡ occurrences t ss + (if s == t then 1 else 0)
unfolding occurrences
occurrences_end t s [] = ground arith
occurrences_end t s (x ∷ ss) = ground (arith, occurrences_end t s ss)

-- How often a service stands in the two lists of the answer.
unfoldable pub reported : String → Refreshed → ℕ
reported t r = occurrences t r.refresheds + occurrences t r.unknowns

reported-refresh_service :
    (t s : String) (l : Leaf) (r : Refreshed)
    → reported t (refresh_service l s r) ≡ reported t r + (if s == t then 1 else 0)
unfolding reported refresh_service
reported-refresh_service t s l r =
    ground (arith, occurrences_end t s r.refresheds, occurrences_end t s r.unknowns)

-- A heartbeat of a leaf reports each service that it asks for, as refreshed or as unknown, as often as
-- it asks for it, and no other, beside what was reported before.
pub reported-refresh_services :
    (t : String) (l : Leaf) (ss : List String) (r : Refreshed)
    → reported t (refresh_services l ss r) ≡ reported t r + occurrences t ss
unfolding refresh_services occurrences
reported-refresh_services t l [] r = ground arith
reported-refresh_services t l (s ∷ ss) r = ground (
  arith,
  reported-refresh_services t l ss (refresh_service l s r),
  reported-refresh_service t s l r,
)
