-- ===== src/Formulas/Drawer.antt =====
-- Saving a formula and its pictures (frontend/src/app/(admin)/formulas/formulas-page.tsx). What
-- JavaScript reads in a text, `parseFloat`, `parseInt` and the moment of a date, are parameters, and so
-- is the upload of a picture, which gives its address or fails.
use hunger_platform.Prelude.{
  ℕ, zero, suc, length, Bool, true, false, not, Option, none, some, List, [], ◌∷◌, ◌++◌, map, Text,
  trim, truthy, if◌then◌else◌,
}
use hunger_platform.Formulas.{InventoryProduct, ComponentRow, resolved_brand, valid_comps}
use hunger_platform.Broadcasts.Loading.{or_null}

pub record Component (A : Type 0) : Type 0 where
  pub brand : Text
  pub product : Option Text
  pub shade : Text
  pub amount : A
  pub unit : Text

pub record FormulaForm : Type 0 where
  pub client_id : Text
  pub service_name : Text
  pub applied_at : Text
  pub result_notes : Text
  pub exposure_minutes : Text

pub record FormulaBody (A : Type 0) : Type 0 where
  pub client_id : Text
  pub master_id : Option Text
  pub service_name : Option Text
  pub applied_at : Text
  pub result_notes : Option Text
  pub exposure_minutes : Option ℕ
  pub photo_urls : List Text
  pub components : List (Component A)

-- What a click on save does: an error of the form, or the request.
pub data Attempt (A : Type 0) : Type 0 where
  no_client no_date no_components no_moment : Attempt A
  request : FormulaBody A → Attempt A

module _ {A : Type 0} (parse_amount : Text → A) (parse_int : Text → Option ℕ)
    (to_iso : Text → Option Text) where
  unfoldable pub component_of : List (Text × InventoryProduct) → ComponentRow → Component A
  unfolding resolved_brand or_null trim
  component_of m c = record {
    brand = resolved_brand m c;
    product = or_null (trim c.product);
    shade = trim c.shade;
    amount = parse_amount c.amount;
    unit = c.unit;
  }

  unfoldable pub formula_request :
      List (Text × InventoryProduct)
      → FormulaForm
      → Text
      → List Text
      → List ComponentRow
      → Option Text
      → Attempt A
  unfolding component_of or_null
  formula_request m f master photos rows none = no_moment
  formula_request m f master photos rows (some moment) = request (record {
    client_id = f.client_id;
    master_id = or_null master;
    service_name = or_null f.service_name;
    applied_at = moment;
    result_notes = or_null f.result_notes;
    exposure_minutes = if truthy f.exposure_minutes then parse_int f.exposure_minutes else none;
    photo_urls = photos;
    components = map (component_of m) rows;
  })

  unfoldable pub with_rows :
      List (Text × InventoryProduct)
      → FormulaForm
      → Text
      → List Text
      → List ComponentRow
      → Attempt A
  unfolding formula_request
  with_rows m f master photos [] = no_components
  with_rows m f master photos (c ∷ rows) =
      formula_request m f master photos (c ∷ rows) (to_iso f.applied_at)

  unfoldable pub save_formula :
      List (Text × InventoryProduct)
      → FormulaForm
      → Text
      → List Text
      → List ComponentRow
      → Attempt A
  unfolding with_rows valid_comps
  save_formula m f master photos rows =
      if not (truthy f.client_id)
      then no_client
      else if not (truthy f.applied_at)
      then no_date
      else with_rows m f master photos (valid_comps m rows)

-- How the loop over the queue ends: the addresses of the page and those of the backend, which adds each
-- address to the formula's as it answers, the files that were tried, and whether one failed.
pub record Uploads (File : Type 0) : Type 0 where
  pub merged_urls : List Text
  pub stored_urls : List Text
  pub attempted : List File
  pub failed : Bool

-- What is left of a save that was answered: the pictures of the formula on the page and at the backend,
-- the files that were tried, whether one failed, and the files that still wait.
pub record Finished (File : Type 0) : Type 0 where
  pub photo_urls : List Text
  pub stored_urls : List Text
  pub attempted : List File
  pub failed : Bool
  pub pending : List File

-- `pending.splice(0, n)`: what is taken out, and what stays.
unfoldable pub spliced : {File : Type 0} → ℕ → List File → List File × List File
spliced zero files = ([], files)
spliced (suc n) [] = ([], [])
spliced (suc n) (f ∷ files) = let rest = spliced n files in (f ∷ rest.0, rest.1)

module _ {File : Type 0} (upload : File → Option Text) where
  -- `for (const file of queue)`, from the addresses of the page and of the backend on.
  unfoldable pub upload_queue : List File → List Text → List Text → Uploads File
  upload_queue [] merged stored = record {
    merged_urls = merged;
    stored_urls = stored;
    attempted = [];
    failed = false;
  }
  upload_queue (f ∷ files) merged stored = elim (upload f) [
    | none ↦ record {
      merged_urls = merged;
      stored_urls = stored;
      attempted = f ∷ [];
      failed = true;
    }
    | some url ↦
        let rest = upload_queue files (merged ++ (url ∷ [])) (stored ++ (url ∷ [])) in
        record rest { attempted = f ∷ rest.attempted }
  ]

  -- The rest of the save, from `splice` on: with a failure the page keeps the pictures of the reply.
  unfoldable pub finish : List File → List Text → Finished File
  unfolding upload_queue spliced
  finish pending saved_urls =
      let taken = spliced (length pending) pending in
      let done = upload_queue taken.0 saved_urls saved_urls in
      record {
        photo_urls = if done.failed then saved_urls else done.merged_urls;
        stored_urls = done.stored_urls;
        attempted = done.attempted;
        failed = done.failed;
        pending = taken.1;
      }
