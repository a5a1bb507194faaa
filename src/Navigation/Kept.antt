-- ===== src/Navigation/Kept.antt =====
-- That the settings of the menu lose no page, whatever is done to it
-- (frontend/src/app/(admin)/settings/settings-section.tsx).
use hunger_platform.Prelude.{
  ◌≡◌, refl, ◌∙◌, inl, inr, ℕ, zero, suc, ◌+◌, ◌-◌, ◌≤◌, true, false, ◌||◌, not, Option, none, some,
  List, [], ◌∷◌, Text, same, same→eq, same_refl, if◌then◌else◌, ◌==◌, length, arith, Bool-cases,
  if-rule,
}
use hunger_platform.Wizard.Handlers.{nth, filter}
use hunger_platform.Referral.{mem}
use hunger_platform.Navigation.{initial_order, initial_hidden}
use hunger_platform.Navigation.Lists.{move, index_of}
use hunger_platform.Navigation.Counts.{
  one_if, count, mem-count, count-append, count-filter, count-move,
}
use hunger_platform.Navigation.Whole.{
  IsListed, Once, distinct, distinct-Once, initial_order-IsListed,
}
use hunger_platform.Navigation.Events.{
  State, Integrations, start, drag_index, left_without, with_end, dropped_on, drag_start, drop,
  take_off, restore, Event, drag_started, dropped, moved_up, moved_down, removed, restored,
  drag_ended, reset, cancelled, save_clicked, step, run,
}

-- The order has no page twice, and the pages that are in it or among the hidden ones are those of the
-- menu.
unfoldable pub IsKept : List Text → List Text → List Text → Type 0
IsKept nav order hidden =
    (x : Text) → (count x order ≤ 1) × ((mem x order || mem x hidden) ≡ mem x nav)

nth-mem : (n : ℕ) (h : Text) (xs : List Text) → nth n xs ≡ some h → mem h xs ≡ true
unfolding nth mem
nth-mem n h [] e = absurd cc
nth-mem zero h (x ∷ xs) e = let r = same_refl h in grind arith
nth-mem (suc n) h (x ∷ xs) e = let rest = nth-mem n h xs e in ground arith

count-left_without :
    (x h : Text) (xs : List Text)
    → count x (left_without h xs) ≡ (if same x h then 0 else count x xs)
unfolding left_without
count-left_without x h xs = count-filter (λ y. not (same y h)) x xs ∙ ground arith

count-with_end :
    (x h : Text) (xs : List Text)
    → count x (with_end h xs) ≡ (if mem h xs then count x xs else count x xs + one_if (same x h))
unfolding with_end count
count-with_end x h xs = let more = count-append x xs (h ∷ []) in ground arith

-- A page that is in one list goes over to the other.
over :
    (x h : Text) (from to : List Text)
    → mem h from ≡ true
    → (mem x (left_without h from) || mem x (with_end h to)) ≡ (mem x from || mem x to)
unfolding one_if
over x h from to e =
    let a = count-left_without x h from in
    let b = count-with_end x h to in
    let c = mem-count x (left_without h from) in
    let d = mem-count x (with_end h to) in
    let f = mem-count x from in
    let g = mem-count x to in
    elim (Bool-cases (same x h)) [
      | inl eq ↦ let eq2 = same→eq x h eq in grind arith
      | inr eq ↦ grind arith
    ]

module _ (nav : List Text) where
  take_off-IsKept :
      (o : Option Text) (s : State)
      → ((h : Text) → o ≡ some h → mem h s.order ≡ true)
      → IsKept nav s.order s.hidden
      → IsKept nav (take_off o s).order (take_off o s).hidden
  unfolding take_off IsKept
  take_off-IsKept none s m k x = k x
  take_off-IsKept (some h) s m k x =
      let fewer = count-left_without x h s.order in
      let one = (k x).0 in (ground arith, over x h s.order s.hidden (m h refl) ∙ (k x).1)

  restore-IsKept :
      (o : Option Text) (s : State)
      → ((h : Text) → o ≡ some h → mem h s.hidden ≡ true)
      → IsKept nav s.order s.hidden
      → IsKept nav (restore o s).order (restore o s).hidden
  unfolding restore IsKept one_if
  restore-IsKept none s m k x = k x
  restore-IsKept (some h) s m k x =
      let more = count-with_end x h s.order in
      let one = (k x).0 in
      let here = mem-count x s.order in
      let there = mem-count h s.order in
      let moved = over x h s.hidden s.order (m h refl) in
      let before = (k x).1 in
      (
        elim (Bool-cases (same x h)) [
          | inl e ↦ let eq = same→eq x h e in grind arith
          | inr e ↦ ground arith
        ],
        ground arith,
      )

  move-IsKept :
      (from to : ℕ) (order hidden : List Text)
      → IsKept nav order hidden
      → IsKept nav (move from to order) hidden
  unfolding IsKept
  move-IsKept from to order hidden k x =
      let moved = count-move x from to order in
      let a = mem-count x order in
      let b = mem-count x (move from to order) in
      let one = (k x).0 in let before = (k x).1 in (ground arith, ground arith)

  initial-IsKept :
      (stored gone : List Text)
      → Once nav
      → IsKept nav (initial_order nav stored) (initial_hidden nav gone)
  unfolding IsKept IsListed initial_hidden one_if
  initial-IsKept stored gone once x =
      let whole = initial_order-IsListed nav stored once x in
      let known = count-filter (λ h. mem h nav) x gone in
      let a = mem-count x (initial_order nav stored) in
      let b = mem-count x (filter (λ h. mem h nav) gone) in (ground arith, ground arith)

  -- The order can be taken back left_without the hidden pages.
  reset-IsKept :
      (stored order hidden : List Text)
      → Once nav
      → IsKept nav order hidden
      → IsKept nav (initial_order nav stored) hidden
  unfolding IsKept IsListed one_if
  reset-IsKept stored order hidden once k x =
      let whole = initial_order-IsListed nav stored once x in
      let a = mem-count x (initial_order nav stored) in
      let before = (k x).1 in (ground arith, ground arith)

  dropped_on-IsKept :
      (from : Option Text) (href : Text) (s : State)
      → IsKept nav s.order s.hidden
      → IsKept nav (dropped_on from href s).order (dropped_on from href s).hidden
  unfolding dropped_on
  dropped_on-IsKept none href s k = k
  dropped_on-IsKept (some from) href s k =
      if-rule (λ t. IsKept nav t.order t.hidden) (same from href) s _ (λ _. k)
        (λ _. move-IsKept (drag_index from s.order) (index_of href s.order) s.order s.hidden k)

  drag_start-IsKept :
      (o : Option Text) (s : State)
      → IsKept nav s.order s.hidden
      → IsKept nav (drag_start o s).order (drag_start o s).hidden
  unfolding drag_start
  drag_start-IsKept none s k = k
  drag_start-IsKept (some href) s k = k

  drop-IsKept :
      (o : Option Text) (s : State)
      → IsKept nav s.order s.hidden
      → IsKept nav (drop o s).order (drop o s).hidden
  unfolding drop
  drop-IsKept none s k = k
  drop-IsKept (some href) s k = dropped_on-IsKept s.dragging_href href s k

  step-IsKept :
      (i : Integrations) (e : Event) (s : State)
      → Once nav
      → IsKept nav s.order s.hidden
      → IsKept nav (step nav i e s).order (step nav i e s).hidden
  unfolding step
  step-IsKept i (drag_started n) s once k = drag_start-IsKept (nth n s.order) s k
  step-IsKept i (dropped n) s once k = drop-IsKept (nth n s.order) s k
  step-IsKept i (moved_up n) s once k =
      if-rule (λ o. IsKept nav o s.hidden) (n == 0) s.order _ (λ _. k)
        (λ _. move-IsKept n (n - 1) s.order s.hidden k)
  step-IsKept i (moved_down n) s once k =
      if-rule (λ o. IsKept nav o s.hidden) (n + 1 == length s.order) s.order _ (λ _. k)
        (λ _. move-IsKept n (n + 1) s.order s.hidden k)
  step-IsKept i (removed n) s once k =
      take_off-IsKept (nth n s.order) s (λ h e. nth-mem n h s.order e) k
  step-IsKept i (restored n) s once k =
      restore-IsKept (nth n s.hidden) s (λ h e. nth-mem n h s.hidden e) k
  step-IsKept i drag_ended s once k = k
  step-IsKept i (reset true) s once k = k
  step-IsKept i (reset false) s once k = reset-IsKept i.admin_nav_order s.order s.hidden once k
  step-IsKept i (cancelled true) s once k = k
  step-IsKept i (cancelled false) s once k =
      initial-IsKept i.admin_nav_order i.admin_nav_hidden once
  step-IsKept i (save_clicked saving) s once k = k

  run_from-IsKept :
      (i : Integrations) (es : List Event) (s : State)
      → Once nav
      → IsKept nav s.order s.hidden
      → IsKept nav (run nav i es s).order (run nav i es s).hidden
  unfolding run
  run_from-IsKept i [] s once k = k
  run_from-IsKept i (e ∷ es) s once k =
      run_from-IsKept i es (step nav i e s) once (step-IsKept i e s once k)

-- Whatever was stored and whatever is done in the settings of the menu, where `nav` has no page twice:
-- the order that is shown has no page twice, and the pages in it or among the hidden ones are just
-- those of `nav`.
pub run-IsKept :
    (nav : List Text) (i : Integrations) (es : List Event)
    → distinct nav ≡ true
    → IsKept nav (run nav i es (start nav i)).order (run nav i es (start nav i)).hidden
unfolding start
run-IsKept nav i es d =
    let once = distinct-Once nav d in
    run_from-IsKept nav i es (start nav i) once
      (initial-IsKept nav i.admin_nav_order i.admin_nav_hidden once)
