-- ===== src/Services.antt =====
-- The switch of a service in the lists of the salon's services
-- (frontend/src/hooks/useServices.ts). The queries whose key starts with `services` are the pages of
-- services and the statistics of components/ServicesKPI.tsx; data that were not fetched are `none`.
pub mod Toggle
use hunger_platform.Prelude.{
  ◌≡◌, ℕ, zero, suc, ◌+◌, Bool, true, false, ◌&&◌, ◌||◌, not, Option, none, some, List, [], ◌∷◌,
  map, Text, same, if◌then◌else◌,
}
use hunger_platform.Wizard.Handlers.{nth}
use hunger_platform.Wizard.Submission.{remove_nth}

pub record ServiceRow : Type 0 where
  pub id : Text
  pub is_active : Bool

-- The data of a query: a page, with its `items`, or other data, such as the statistics.
pub data ServiceData : Type 0 where
  with_items : List ServiceRow → ServiceData
  no_items : ServiceData

abbrev pub ServiceCaches : Type 0
ServiceCaches = List (Text × Option ServiceData)

unfoldable pub set_active : Text → Bool → ServiceRow → ServiceRow
unfolding same
set_active id b s = if same s.id id then record s { is_active = b } else s

-- The data after the updater, which throws where there are no `items` to map.
unfoldable pub set_page : Text → Bool → Option ServiceData → Option ServiceData
unfolding set_active
set_page id b none = none
set_page id b (some (with_items rows)) = some (with_items (map (set_active id b) rows))
set_page id b (some no_items) = some no_items

unfoldable pub updatable : Option ServiceData → Bool
updatable none = true
updatable (some (with_items rows)) = true
updatable (some no_items) = false

-- `setQueriesData`: the queries are updated in turn until the updater throws; whether it never does, and
-- the caches then.
unfoldable pub set_pages : Text → Bool → ServiceCaches → Bool × ServiceCaches
unfolding set_page updatable
set_pages id b [] = (true, [])
set_pages id b ((key, page) ∷ caches) =
    let rest = set_pages id b caches in
    if updatable page
    then (rest.0, (key, set_page id b page) ∷ rest.1)
    else (false, (key, page) ∷ caches)

-- `qc.setQueryData(key, data)`, which leaves the cache as it is where there are no data
unfoldable pub set_query : Text → Option ServiceData → ServiceCaches → ServiceCaches
unfolding same
set_query key none caches = caches
set_query key (some found) [] = (key, some found) ∷ []
set_query key (some found) ((name, page) ∷ caches) =
    let rest = set_query key (some found) caches in
    if same name key then (name, some found) ∷ caches else (name, page) ∷ rest

unfoldable pub restore_pages : ServiceCaches → ServiceCaches → ServiceCaches
unfolding set_query
restore_pages [] caches = caches
restore_pages ((key, page) ∷ previous) caches = restore_pages previous (set_query key page caches)

-- The caches, what each toggle in flight found there, the requests that were sent, the latest first,
-- and whether the caches are to be fetched again.
pub record ToggleState : Type 0 where
  pub caches : ServiceCaches
  pub previous : List ServiceCaches
  pub sent : List (Text × Bool)
  pub stale : Bool

-- `mutate`: where `onMutate` throws, the request is not made, `onError` has no context to restore from,
-- and `onSettled` asks for the data again.
unfoldable pub toggle_service : Text → Bool → ToggleState → ToggleState
unfolding set_pages
toggle_service id b s =
    if (set_pages id b s.caches).0
    then record s {
      caches = (set_pages id b s.caches).1;
      previous = s.caches ∷ s.previous;
      sent = (id, b) ∷ s.sent;
    }
    else record s { caches = (set_pages id b s.caches).1; stale = true }

unfoldable pub settled_with : ℕ → Bool → Option ServiceCaches → ToggleState → ToggleState
unfolding restore_pages remove_nth
settled_with n ok none s = s
settled_with n ok (some before) s = record s {
  caches = if ok then s.caches else restore_pages before s.caches;
  previous = remove_nth n s.previous;
  stale = true;
}

-- The answer to a toggle, the latest first.
unfoldable pub toggle_settled : ℕ → Bool → ToggleState → ToggleState
unfolding settled_with nth
toggle_settled n ok s = settled_with n ok (nth n s.previous) s
