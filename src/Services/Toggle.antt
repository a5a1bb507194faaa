-- ===== src/Services/Toggle.antt =====
-- That a switch that fails is taken back (frontend/src/hooks/useServices.ts).
use hunger_platform.Prelude.{
  ◌≡◌, refl, ◌∙◌, ◌⊎◌, inl, inr, Bool-cases, all, Bool, true, false, ◌&&◌, ◌||◌, not, Option, none,
  some, [], ◌∷◌, Text, same, same_refl, same_sym, arith,
}
use hunger_platform.Wizard.Handlers.{nth}
use hunger_platform.Wizard.Submission.{remove_nth}
use hunger_platform.Services.{
  ServiceData, ServiceCaches, updatable, set_page, set_pages, set_query, restore_pages, ToggleState,
  toggle_service, settled_with, toggle_settled,
}

-- No other page has the key.
unfoldable pub has_page : Text → ServiceCaches → Bool
unfolding same
has_page key [] = false
has_page key ((name, page) ∷ caches) = same name key || has_page key caches

unfoldable pub distinct_pages : ServiceCaches → Bool
unfolding has_page
distinct_pages [] = true
distinct_pages ((name, page) ∷ caches) = not (has_page name caches) && distinct_pages caches

-- Every query of the cache that has data has `items`.
unfoldable pub only_pages : ServiceCaches → Bool
unfolding updatable
only_pages caches = all (λ c. updatable c.1) caches

set_query-here :
    (key : Text) (page : Option ServiceData) (id : Text) (b : Bool) (caches : ServiceCaches)
    → set_query key page ((key, set_page id b page) ∷ caches) ≡ (key, page) ∷ caches
unfolding set_query set_page
set_query-here key none id b caches = refl
set_query-here key (some found) id b caches = rw (same_refl key) refl

-- What is put back under other keys leaves the first page.
restore_pages-other :
    (key : Text) (page : Option ServiceData) (previous caches : ServiceCaches)
    → has_page key previous ≡ false
    → restore_pages previous ((key, page) ∷ caches) ≡ (key, page) ∷ restore_pages previous caches
unfolding restore_pages has_page set_query
restore_pages-other key page [] caches h = refl
restore_pages-other key page ((name, none) ∷ previous) caches h =
    restore_pages-other key page previous caches (ground arith)
restore_pages-other key page ((name, some found) ∷ previous) caches h =
    let apart : same key name ≡ false = same_sym key name ∙ ground arith in
    rw apart
      (restore_pages-other key page previous (set_query name (some found) caches) (ground arith))

-- The updater throws just where a query has data without `items`.
set_pages-only_pages :
    (id : Text) (b : Bool) (caches : ServiceCaches) → (set_pages id b caches).0 ≡ only_pages caches
unfolding set_pages only_pages
set_pages-only_pages id b [] = refl
set_pages-only_pages id b ((key, page) ∷ caches) =
    let rest = set_pages-only_pages id b caches in ground arith

set_pages-cons :
    (id : Text) (b : Bool) (key : Text) (page : Option ServiceData) (caches : ServiceCaches)
    → updatable page ≡ true
    → (set_pages id b ((key, page) ∷ caches)).1
      ≡ (key, set_page id b page) ∷ (set_pages id b caches).1
unfolding set_pages
set_pages-cons id b key page caches h = rw h refl

restore-set_pages :
    (id : Text) (b : Bool) (caches : ServiceCaches)
    → distinct_pages caches ≡ true
    → only_pages caches ≡ true
    → restore_pages caches (set_pages id b caches).1 ≡ caches
unfolding restore_pages distinct_pages only_pages
restore-set_pages id b [] h pages = unfold set_pages in refl
restore-set_pages id b ((key, page) ∷ caches) h pages =
    let rest = restore-set_pages id b caches (ground arith) (ground arith) in
    rw (set_pages-cons id b key page caches (ground arith)) (
      rw (set_query-here key page id b (set_pages id b caches).1) (
        rw (restore_pages-other key page caches (set_pages id b caches).1 (ground arith))
          (rw rest refl)))

-- A switch of a service that the backend refuses, with no other change in between, where no two queries
-- of the cache have one key. Where every query under `services` that has data is a page, it sends one
-- request, leaves each page of the cache as it was, asks for them again, and leaves the other switches in
-- flight. Where one has data without `items`, as the statistics do, nothing is sent, no switch is added to
-- those in flight, and the data are asked for again.
pub toggle_settled-toggle_service :
    (id : Text) (b : Bool) (s : ToggleState)
    → distinct_pages s.caches ≡ true
    → ((only_pages s.caches ≡ true)
        × (toggle_settled 0 false (toggle_service id b s)
            ≡ record s { sent = (id, b) ∷ s.sent; stale = true }))
      ⊎ ((only_pages s.caches ≡ false)
          × (toggle_service id b s
              ≡ record s { caches = (set_pages id b s.caches).1; stale = true }))
unfolding toggle_settled settled_with toggle_service nth remove_nth
toggle_settled-toggle_service id b s h =
    let thrown = set_pages-only_pages id b s.caches in
    elim (Bool-cases (only_pages s.caches)) [
      | inl e ↦ inl (e, rw (thrown ∙ e) (rw (restore-set_pages id b s.caches h e) refl))
      | inr e ↦ inr (e, rw (thrown ∙ e) refl)
    ]
