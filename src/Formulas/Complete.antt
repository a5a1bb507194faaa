-- ===== src/Formulas/Complete.antt =====
-- That a formula is saved with complete rows only, and what becomes of its pictures
-- (frontend/src/app/(admin)/formulas/formulas-page.tsx).
use hunger_platform.Prelude.{
  ◌≡◌, refl, sym, ap, ◌∙◌, ℕ, suc, true, false, not, Option, none, some, List, [], ◌∷◌, ◌++◌, map,
  Text, truthy, ltb, length, arith, if-rule,
}
use hunger_platform.Wizard.Handlers.{filter}
use hunger_platform.Formulas.{InventoryProduct, ComponentRow, is_complete, valid_comps}
use hunger_platform.Formulas.Rows.{RowsOf, rows-RowsOf}
use hunger_platform.Formulas.Drawer.{
  Component, FormulaForm, FormulaBody, Attempt, no_client, no_date, request, component_of,
  formula_request, with_rows, save_formula, spliced, upload_queue, finish,
}

module _ {A : Type 0} where
  sent_at : Attempt A → Option Text
  sent_at (request b) = some b.applied_at
  sent_at _ = none

  sent_rows : Attempt A → List (Component A)
  sent_rows (request b) = b.components
  sent_rows _ = []

module _ {A : Type 0} (parse_amount : Text → A) (parse_int : Text → Option ℕ)
    (to_iso : Text → Option Text) where
  module _ (m : List (Text × InventoryProduct)) (f : FormulaForm) (master : Text)
      (photos : List Text) (kept : List ComponentRow) where
    -- What holds of a request.
    Wanted : FormulaBody A → Type 0
    Wanted b =
        (truthy f.client_id ≡ true)
        × (truthy f.applied_at ≡ true)
        × (ltb 0 (length kept) ≡ true)
        × (to_iso f.applied_at ≡ some b.applied_at)
        × (b.components ≡ map (component_of parse_amount parse_int to_iso m) kept)

    Sent : Attempt A → Type 0
    Sent a = (b : FormulaBody A) → a ≡ request b → Wanted b

    formula_request-Sent :
        (o : Option Text)
        → truthy f.client_id ≡ true
        → truthy f.applied_at ≡ true
        → ltb 0 (length kept) ≡ true
        → to_iso f.applied_at ≡ o
        → Sent (formula_request parse_amount parse_int to_iso m f master photos kept o)
    unfolding Sent Wanted formula_request
    formula_request-Sent none h k l e b r = absurd cc
    formula_request-Sent (some moment) h k l e b r =
        (h, k, l, e ∙ unfold sent_at in ap sent_at r, unfold sent_rows in sym (ap sent_rows r))

  with_rows-Sent :
      (m : List (Text × InventoryProduct)) (f : FormulaForm) (master : Text) (photos : List Text)
      (kept : List ComponentRow)
      → truthy f.client_id ≡ true
      → truthy f.applied_at ≡ true
      → Sent m f master photos kept (with_rows parse_amount parse_int to_iso m f master photos kept)
  unfolding with_rows Sent
  with_rows-Sent m f master photos [] h k b r = absurd cc
  with_rows-Sent m f master photos (c ∷ kept) h k b r =
      formula_request-Sent m f master photos (c ∷ kept) (to_iso f.applied_at) h k (ground arith)
        refl b r

  save-Sent :
      (m : List (Text × InventoryProduct)) (f : FormulaForm) (master : Text) (photos : List Text)
      (rows : List ComponentRow)
      → Sent m f master photos
          (filter (is_complete m) rows)
          (save_formula parse_amount parse_int to_iso m f master photos rows)
  unfolding save_formula valid_comps Sent
  save-Sent m f master photos rows =
      if-rule (Sent m f master photos (filter (is_complete m) rows)) (not (truthy f.client_id))
        no_client _ (λ _ b r. absurd cc)
        (λ e.
          if-rule (Sent m f master photos (filter (is_complete m) rows)) (not (truthy f.applied_at))
            no_date _ (λ _ b r. absurd cc)
            (λ d.
              with_rows-Sent m f master photos (filter (is_complete m) rows) (ground arith)
                (ground arith)))

length-map : {A B : Type 0} (g : A → B) (xs : List A) → length (map g xs) ≡ length xs
length-map g [] = refl
length-map g (x ∷ xs) = ap suc (length-map g xs)

-- What is saved of a formula: there is a client, a date that is one, and at least one row. The rows are, in
-- their order, those that have an amount and a brand; each is sent with its own brand, or else with that
-- of the product of the inventory that its product names, or else of the one that its shade names, and
-- with its amount, product, shade and unit.
pub save_formula_complete :
    {A : Type 0} (parse_amount : Text → A) (parse_int : Text → Option ℕ)
    (to_iso : Text → Option Text) (m : List (Text × InventoryProduct)) (f : FormulaForm)
    (master : Text) (photos : List Text) (rows : List ComponentRow) (b : FormulaBody A)
    → save_formula parse_amount parse_int to_iso m f master photos rows ≡ request b
    → (truthy f.client_id ≡ true)
      × (to_iso f.applied_at ≡ some b.applied_at)
      × (ltb 0 (length b.components) ≡ true)
      × RowsOf parse_amount m rows b.components
unfolding Sent Wanted
save_formula_complete parse_amount parse_int to_iso m f master photos rows b r =
    let all_of = save-Sent parse_amount parse_int to_iso m f master photos rows b r in
    let some_row = all_of.2 in
    let same_rows = all_of.4 in
    let long =
      length-map (component_of parse_amount parse_int to_iso m) (filter (is_complete m) rows) in
    (
      all_of.0,
      all_of.3,
      rw same_rows (rw long some_row),
      rw same_rows (rows-RowsOf parse_amount parse_int to_iso m rows),
    )

append_nil : (xs : List Text) → xs ++ [] ≡ xs
append_nil [] = refl
append_nil (x ∷ xs) = ap (λ ys. x ∷ ys) (append_nil xs)

append_one : (xs : List Text) (u : Text) (ys : List Text) → (xs ++ (u ∷ [])) ++ ys ≡ xs ++ (u ∷ ys)
append_one [] u ys = refl
append_one (x ∷ xs) u ys = ap (λ zs. x ∷ zs) (append_one xs u ys)

spliced-all : {File : Type 0} (files : List File) → spliced (length files) files ≡ (files, [])
unfolding spliced
spliced-all [] = refl
spliced-all (f ∷ files) = rw (spliced-all files) refl

module _ {File : Type 0} (upload : File → Option Text) where
  upload_queue-all :
      (files : List File) (urls merged stored : List Text)
      → map upload files ≡ map (λ u. some u) urls
      → upload_queue upload files merged stored ≡ record {
        merged_urls = merged ++ urls;
        stored_urls = stored ++ urls;
        attempted = files;
        failed = false;
      }
  unfolding upload_queue
  upload_queue-all [] [] merged stored h = rw (append_nil merged) (rw (append_nil stored) refl)
  upload_queue-all [] (u ∷ urls) merged stored h = absurd cc
  upload_queue-all (f ∷ files) [] merged stored h = absurd cc
  upload_queue-all (f ∷ files) (u ∷ urls) merged stored h =
      let head : upload f ≡ some u = cc in
      let tail : map upload files ≡ map (λ v. some v) urls = cc in
      rw (head, upload_queue)
        (rw (upload_queue-all files urls (merged ++ (u ∷ [])) (stored ++ (u ∷ [])) tail)
          (rw (append_one merged u urls) (rw (append_one stored u urls) refl)))

  upload_queue-part :
      (files : List File) (f : File) (later : List File) (urls merged stored : List Text)
      → map upload files ≡ map (λ u. some u) urls
      → upload f ≡ none
      → upload_queue upload (files ++ (f ∷ later)) merged stored ≡ record {
        merged_urls = merged ++ urls;
        stored_urls = stored ++ urls;
        attempted = files ++ (f ∷ []);
        failed = true;
      }
  unfolding upload_queue
  upload_queue-part [] f later [] merged stored h e =
      rw e (rw (append_nil merged) (rw (append_nil stored) refl))
  upload_queue-part [] f later (u ∷ urls) merged stored h e = absurd cc
  upload_queue-part (g ∷ files) f later [] merged stored h e = absurd cc
  upload_queue-part (g ∷ files) f later (u ∷ urls) merged stored h e =
      let head : upload g ≡ some u = cc in
      let tail : map upload files ≡ map (λ v. some v) urls = cc in
      rw head (
        rw (upload_queue-part files f later urls (merged ++ (u ∷ [])) (stored ++ (u ∷ [])) tail e)
          (rw (append_one merged u urls) (rw (append_one stored u urls) refl)))

-- The pictures that wait for the first save, of which some can be uploaded and `f` cannot. Where only
-- the former wait, the page has them behind those of the reply, as the backend has. Where `f` and others
-- follow them, the page is left with those of the reply only, though the backend has the former too; the
-- ones after `f` are not tried. In both cases no file waits any more, so none is ever tried again.
pub finish-course :
    {File : Type 0} (upload : File → Option Text) (files : List File) (f : File) (later : List File)
    (urls saved : List Text)
    → map upload files ≡ map (λ u. some u) urls
    → upload f ≡ none
    → (finish upload files saved ≡ record {
      photo_urls = saved ++ urls;
      stored_urls = saved ++ urls;
      attempted = files;
      failed = false;
      pending = [];
    })
      × (finish upload (files ++ (f ∷ later)) saved ≡ record {
        photo_urls = saved;
        stored_urls = saved ++ urls;
        attempted = files ++ (f ∷ []);
        failed = true;
        pending = [];
      })
unfolding finish
finish-course upload files f later urls saved h e = (
  rw (spliced-all files) (rw (upload_queue-all upload files urls saved saved h) refl),
  rw (spliced-all (files ++ (f ∷ later)))
      (rw (upload_queue-part upload files f later urls saved saved h e) refl),
)
