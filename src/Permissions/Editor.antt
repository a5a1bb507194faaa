-- ===== src/Permissions/Editor.antt =====
-- The switches of a user's page permissions (frontend/src/components/users/user-page-permissions-tab.tsx).
use hunger_platform.Prelude.{
  String, Bool, true, false, ◌&&◌, ◌||◌, not, Option, none, some, List, [], ◌∷◌, str_eq, ◌≡◌, ◌≢◌,
  refl, ap, ◌∙◌, if◌then◌else◌, lookup, insert, lookup-insert, arith, eq_iff, Bool-cases, inl, inr,
  Option-cases,
}
use hunger_platform.Permissions.{
  SectionFlags, flag, pget, pget_in, Role, owner, Action, Resource, section_of, can,
}
use hunger_platform.Permissions.Denial.{can_disabled}

abbrev pub Draft : Type 0
Draft = List (String × Option SectionFlags)

-- `sectionState`
unfoldable pub flags_or_empty : Option (Option SectionFlags) → SectionFlags
flags_or_empty none = []
flags_or_empty (some none) = []
flags_or_empty (some (some s)) = s

unfoldable pub section_state : Draft → String → SectionFlags
unfolding flags_or_empty
section_state draft section = flags_or_empty (lookup section draft)

-- `Object.keys(prev)`
unfoldable pub keys : SectionFlags → List String
keys [] = []
keys ((k, b) ∷ s) = k ∷ keys s

-- The loop over the keys.
unfoldable pub set_others : List String → SectionFlags → SectionFlags
set_others [] updated = updated
set_others (k ∷ ks) updated =
    if str_eq k "enabled" then set_others ks updated else set_others ks (insert k true updated)

-- The flags of the section after one switch.
unfoldable pub switched : String → Bool → SectionFlags → SectionFlags
unfolding keys set_others
switched key value prev =
    if str_eq key "enabled" && value
    then set_others (keys prev) (insert "enabled" true prev)
    else insert key value prev

-- `setSectionKey`
unfoldable pub set_section_key : Draft → String → String → Bool → Draft
unfolding section_state switched
set_section_key draft section key value =
    insert section (some (switched key value (section_state draft section))) draft

unfoldable pub is_key : String → List String → Bool
is_key k [] = false
is_key k (j ∷ ks) = str_eq j k || is_key k ks

over_insert :
    (k key : String) (ks : List String) (u : SectionFlags)
    → str_eq k "enabled" ≡ false
    → (if is_key key ks && not (str_eq key "enabled")
        then some true
        else lookup key (insert k true u))
      ≡ (if is_key key (k ∷ ks) && not (str_eq key "enabled") then some true else lookup key u)
unfolding is_key
over_insert k key ks u e =
    rw (lookup-insert k key true u)
      (ground (arith, eq_iff k key, eq_iff k "enabled", eq_iff key "enabled"))

lookup-set_others :
    (key : String) (ks : List String) (u : SectionFlags)
    → lookup key (set_others ks u)
      ≡ (if is_key key ks && not (str_eq key "enabled") then some true else lookup key u)
unfolding set_others is_key
lookup-set_others key [] u = refl
lookup-set_others key (k ∷ ks) u = elim (Bool-cases (str_eq k "enabled")) [
  | inl e ↦ rw e (
      lookup-set_others key ks u
      ∙ ground (arith, eq_iff k key, eq_iff k "enabled", eq_iff key "enabled"))
  | inr e ↦ rw e (lookup-set_others key ks (insert k true u) ∙ over_insert k key ks u e)
]

-- What a switch makes of the flags of its section.
unfoldable pub flag_after : String → Bool → SectionFlags → String → Bool
flag_after key value prev k =
    if str_eq key k
    then value
    else if str_eq key "enabled" && value && is_key k (keys prev)
    then true
    else flag prev k

flag-switched :
    (key : String) (value : Bool) (prev : SectionFlags) (k : String)
    → flag (switched key value prev) k ≡ flag_after key value prev k
unfolding flag switched flag_after
flag-switched key value prev k = ground (
  arith,
  lookup-set_others k (keys prev) (insert "enabled" true prev),
  lookup-insert "enabled" k true prev,
  lookup-insert key k value prev,
  eq_iff key k,
  eq_iff key "enabled",
  eq_iff k "enabled",
  eq_iff "enabled" k,
)

section_state-insert :
    (section other : String) (s : SectionFlags) (draft : Draft)
    → section_state (insert section (some s) draft) other
      ≡ (if str_eq section other then s else section_state draft other)
unfolding section_state flags_or_empty
section_state-insert section other s draft =
    rw (lookup-insert section other (some s) draft) (ground arith)

flag-if :
    (b : Bool) (x y : SectionFlags) (k : String)
    → flag (if b then x else y) k ≡ (if b then flag x k else flag y k)
flag-if true x y k = refl
flag-if false x y k = refl

-- After a switch: a flag of another section is as before. In the section of the switch its own flag is
-- as set; turning the section on also sets every flag that the section has, and no other flag changes.
flag-set_section_key :
    (draft : Draft) (section key : String) (value : Bool) (other k : String)
    → flag (section_state (set_section_key draft section key value) other) k ≡ (
        if str_eq section other
        then flag_after key value (section_state draft section) k
        else flag (section_state draft other) k)
unfolding set_section_key
flag-set_section_key draft section key value other k =
    ap (λ s. flag s k)
      (section_state-insert section other (switched key value (section_state draft section)) draft)
    ∙ flag-if (str_eq section other) (switched key value (section_state draft section))
        (section_state draft other) k
    ∙ ap (λ x. if str_eq section other then x else flag (section_state draft other) k)
        (flag-switched key value (section_state draft section) k)

pget-section_state :
    (draft : Draft) (section : String)
    → flag (section_state draft section) "enabled" ≡ false
    → pget (some draft) section "enabled" ≡ false
unfolding pget section_state flags_or_empty flag
pget-section_state draft section h = elim (Option-cases (lookup section draft)) [
  | inl e ↦ rw e refl
  | inr (o, e) ↦ rw e (enabled_of o (ground arith))
]
  where
    enabled_of :
        (o : Option SectionFlags)
        → flag (flags_or_empty (some o)) "enabled" ≡ false
        → pget_in (some o) "enabled" ≡ false
    enabled_of none h' = refl
    enabled_of (some s) h' = ground arith

-- Once the switch of its section is turned off, a resource is refused to everyone but the owner,
-- whatever the action and whatever else the permissions say.
pub can-set_section_key :
    (draft : Draft) (role : Role) (reports : Option Bool) (action : Action) (resource : Resource)
    (section : String)
    → role ≢ owner
    → section_of resource ≡ some section
    → can
        (record {
          role = role;
          page_permissions = some (set_section_key draft section "enabled" false);
          reports_access = reports;
        })
        action
        resource
      ≡ false
can-set_section_key draft role reports action resource section h e =
    can_disabled _ action resource section h e (
      pget-section_state (set_section_key draft section "enabled" false) section (
        flag-set_section_key draft section "enabled" false section "enabled"
        ∙ unfold flag_after in ground (arith, eq_iff section section)))
