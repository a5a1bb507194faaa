-- ===== src/Wizard/Refinement/Catalog.antt =====
-- The links of the address and the catalogue, as moves (frontend/src/app/mini-app/book/page.tsx).
use hunger_platform.Prelude.{
  ℕ, ◌≡◌, refl, Bool, true, false, ◌||◌, not, Option, none, some, List, [], ◌∷◌, Text, truthy, ◌==◌,
  arith, if-rule, same, Option-cases, inl, inr, length,
}
use hunger_platform.Wizard.{
  ServiceItem, Master, Page, State, PublicMasterProfile, master_only, shows_catalog,
}
use hunger_platform.Wizard.Handlers.{
  nth, find, services_effect, masters_effect, open_service, open_master, is_service_of,
  choose_category, choose_service, enter_service, enter_nth, filtered,
}
use hunger_platform.Wizard.Stages.{
  Stage, choosing, choosing_master, choosing_time, with_service, with_master, stage, pick_service,
  pick_service_of, link_service, link_master, Reaches, stays, kept, on_step-Reaches, at_0,
}

find-holds : {A : Type 0} (q : A → Bool) (xs : List A) (x : A) → find q xs ≡ some x → q x ≡ true
unfolding find
find-holds q [] x h = cc
find-holds q (y ∷ ys) x h = ground (arith, find-holds q ys x)

module _ (p : Page) (g : Stage) (s : State) (here : stage s ≡ some g) where
  open_service-Reaches :
      (o : Option ServiceItem)
      → ((svc : ServiceItem) → o ≡ some svc → same svc.id p.q_service_id ≡ true)
      → Reaches p g (open_service o s)
  unfolding open_service stage with_service Reaches
  open_service-Reaches none h = stays p g s here (open_service none s) refl
  open_service-Reaches (some svc) h = (choosing_master svc, refl, link_service g svc (h svc refl))

  pub services_effect-Reaches : Reaches p g (services_effect p s)
  unfolding services_effect stage
  services_effect-Reaches =
      if-rule (Reaches p g) (s.service_query_handled || length p.services == 0) _ _
        (λ _. kept p g s here)
        (λ _.
          if-rule (Reaches p g) (not (truthy p.q_service_id)) _ _
            (λ _. stays p g s here (record s { service_query_handled = true }) refl)
            (λ _.
              open_service-Reaches (find (λ svc. same svc.id p.q_service_id) p.services)
                (λ svc e. find-holds (λ svc'. same svc'.id p.q_service_id) p.services svc e)))

  pick-Reaches : s.step ≡ 0 → (svc : ServiceItem) → Reaches p g (enter_service p svc s)
  unfolding enter_service stage with_service with_master Reaches
  pick-Reaches e svc = rw (at_0 p g s here e) (
      if-rule (Reaches p choosing) (master_only p) _ _ (λ _. pick_of p.master_pub)
        (λ _. (choosing_master svc, refl, pick_service svc)))
    where
      pick_of :
          (o : Option PublicMasterProfile)
          → Reaches p choosing (elim o [
            | none ↦ record s { service = some svc; step = 1 }
            | some m ↦ record s {
              service = some svc;
              master =
                  some (record {
                    id = m.id;
                    name = m.display_name;
                    display_name = some m.display_name;
                  });
              step = 2;
            }
          ])
      pick_of none = (choosing_master svc, refl, pick_service svc)
      pick_of (some m) = (_, refl, pick_service_of svc _)

  enter_nth-Reaches : s.step ≡ 0 → (o : Option ServiceItem) → Reaches p g (enter_nth p o s)
  unfolding enter_nth
  enter_nth-Reaches e none = kept p g s here
  enter_nth-Reaches e (some svc) = pick-Reaches e svc

  pub choose_service-Reaches : (n : ℕ) → Reaches p g (choose_service p n s)
  unfolding choose_service
  choose_service-Reaches n = on_step-Reaches p g s here 0 _ (λ e.
      if-rule (Reaches p g) (shows_catalog p) _ _ (λ _. enter_nth-Reaches e (nth n (filtered p s)))
        (λ _. kept p g s here))

  pub choose_category-Reaches : (c : Option Text) → Reaches p g (choose_category c s)
  unfolding choose_category stage
  choose_category-Reaches c = on_step-Reaches p g s here 0 _ (λ e. stays p g s here _ refl)

  open_master-Reaches :
      (svc : ServiceItem)
      → s.service ≡ some svc
      → same svc.id p.q_service_id ≡ true
      → (o : Option Master) → ((m : Master) → o ≡ some m → same m.id p.q_master_id ≡ true)
      → Reaches p g (open_master o s)
  unfolding open_master stage with_master Reaches
  open_master-Reaches svc e h none k = stays p g s here (open_master none s) refl
  open_master-Reaches svc e h (some m) k =
      (choosing_time svc m, rw e refl, link_master g svc m h (k m refl))

  masters_found-Reaches :
      not (is_service_of p s.service) ≡ false
      → Reaches p g (open_master (find (λ m. same m.id p.q_master_id) p.masters) s)
  unfolding is_service_of
  masters_found-Reaches linked = elim (Option-cases s.service) [
    | inl e ↦ absurd (ground arith)
    | inr (svc, e) ↦
        open_master-Reaches svc e (ground arith) (find (λ m. same m.id p.q_master_id) p.masters)
          (λ m f. find-holds (λ m'. same m'.id p.q_master_id) p.masters m f)
  ]

  pub masters_effect-Reaches : Reaches p g (masters_effect p s)
  unfolding masters_effect
  masters_effect-Reaches =
      if-rule (Reaches p g) _ _ _ (λ _. kept p g s here)
        (λ _.
          if-rule (Reaches p g) (not (is_service_of p s.service)) _ _ (λ _. kept p g s here)
            (λ linked.
              if-rule (Reaches p g) (length p.masters == 0) _ _ (λ _. kept p g s here)
                (λ _. masters_found-Reaches linked)))
