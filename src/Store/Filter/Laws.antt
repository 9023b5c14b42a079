-- ===== src/Store/Filter/Laws.antt =====
-- What a converted filter holds.
use nestjs_microservice_boil.Base.{
  Text, true, false, [], ◌∷◌, Option, none, some, truthy, ◌≡◌, refl, arith, ◌===◌, Bool-cases, inl,
  inr, ◌∙◌,
}
use nestjs_microservice_boil.Value.{
  Value, null, text, Fields, end, field, is_truthy, get, set, delete,
}
use nestjs_microservice_boil.Value.Paths.{get-set, get-delete}
use nestjs_microservice_boil.Store.Filter.{
  deleted_at, id_key, mongo_id, full_key, flatten_keys, flatten_value, rename_id, convert_filter,
}
use nestjs_microservice_boil.Store.Filter.Keys.{
  OnlyIs, is_dotted, is_leaf, no_empty_key, flatten_leaf, get-flatten_other,
}

module _ (q : Text) (undotted : is_dotted q ≡ false) (v : Value) (leaf : is_leaf v ≡ true) where
  get-flatten_kept :
      (fs target : Fields)
      → get [] fs ≡ none
      → OnlyIs q v fs
      → get q target ≡ some v
      → get q (flatten_keys fs target []) ≡ some v
  unfolding flatten_keys get full_key ◌===◌
  get-flatten_kept end target e o h = h
  get-flatten_kept (field [] w fs) target e o h = absurd (no_empty_key w fs e)
  get-flatten_kept (field (c ∷ key) w fs) target e o h = elim (Bool-cases (c ∷ key === q)) [
    | inl same ↦
        let w-is-v = o.0 same in
        get-flatten_kept fs (flatten_value w target (c ∷ key)) e o.1
          (rw (w-is-v, flatten_leaf v target (c ∷ key) leaf, get-set q (c ∷ key) v target, same))
    | inr other ↦
        get-flatten_kept fs (flatten_value w target (c ∷ key)) e o.1
          (get-flatten_other q w target c key undotted other ∙ h)
  ]

  get-flatten_set :
      (fs target : Fields)
      → get [] fs ≡ none
      → OnlyIs q v fs
      → get q fs ≡ some v
      → get q (flatten_keys fs target []) ≡ some v
  unfolding flatten_keys get full_key ◌===◌
  get-flatten_set end target e o h = absurd (ground arith)
  get-flatten_set (field [] w fs) target e o h = absurd (no_empty_key w fs e)
  get-flatten_set (field (c ∷ key) w fs) target e o h = elim (Bool-cases (c ∷ key === q)) [
    | inl same ↦
        let w-is-v = o.0 same in
        get-flatten_kept fs (flatten_value w target (c ∷ key)) e o.1
          (rw (w-is-v, flatten_leaf v target (c ∷ key) leaf, get-set q (c ∷ key) v target, same))
    | inr other ↦
        get-flatten_set fs (flatten_value w target (c ∷ key)) e o.1 (ground (arith, other))
  ]

get-flatten_absent :
    (q : Text) (fs target : Fields)
    → is_dotted q ≡ false
    → get [] fs ≡ none
    → get q fs ≡ none
    → get q (flatten_keys fs target []) ≡ get q target
unfolding flatten_keys get full_key ◌===◌
get-flatten_absent q end target u e h = refl
get-flatten_absent q (field [] w fs) target u e h = absurd (no_empty_key w fs e)
get-flatten_absent q (field (c ∷ key) w fs) target u e h = elim (Bool-cases (c ∷ key === q)) [
  | inl same ↦ absurd (ground (arith, same))
  | inr other ↦
      get-flatten_absent q fs (flatten_value w target (c ∷ key)) u e (ground (arith, other))
      ∙ get-flatten_other q w target c key u other
]

OnlyIs-delete :
    (q key : Text) (v : Value) (fs : Fields) → OnlyIs q v fs → OnlyIs q v (delete key fs)
unfolding delete
OnlyIs-delete q key v end o = tt
OnlyIs-delete q key v (field k w fs) o = elim (Bool-cases (k === key)) [
  | inl e ↦ rw e (OnlyIs-delete q key v fs o.1)
  | inr e ↦ rw e (o.0, OnlyIs-delete q key v fs o.1)
]

delete-OnlyIs : (q : Text) (v : Value) (fs : Fields) → OnlyIs q v (delete q fs)
unfolding delete
delete-OnlyIs q v end = tt
delete-OnlyIs q v (field k w fs) = elim (Bool-cases (k === q)) [
  | inl e ↦ rw e (delete-OnlyIs q v fs)
  | inr e ↦ rw e ((λ h. absurd (ground (arith, e, h))), delete-OnlyIs q v fs)
]

OnlyIs-set : (q : Text) (v : Value) (fs : Fields) → OnlyIs q v (set q v fs)
unfolding set delete
OnlyIs-set q v end = ((λ h. refl), tt)
OnlyIs-set q v (field k w fs) = elim (Bool-cases (k === q)) [
  | inl e ↦ rw e ((λ h. refl), delete-OnlyIs q v fs)
  | inr e ↦ rw e ((λ h. absurd (ground (arith, e, h))), OnlyIs-set q v fs)
]

OnlyIs-set_other :
    (q key : Text) (v w : Value) (fs : Fields)
    → (key === q) ≡ false
    → OnlyIs q v fs
    → OnlyIs q v (set key w fs)
unfolding set delete
OnlyIs-set_other q key v w end h o = ((λ k. absurd (ground (arith, h, k))), tt)
OnlyIs-set_other q key v w (field k u fs) h o = elim (Bool-cases (k === key)) [
  | inl e ↦ rw e ((λ k. absurd (ground (arith, h, k))), OnlyIs-delete q key v fs o.1)
  | inr e ↦ rw e (o.0, OnlyIs-set_other q key v w fs h o.1)
]

rename_id-eq :
    (fs : Fields) (key : Text)
    → get id_key fs ≡ some (text key)
    → truthy key ≡ true
    → rename_id fs ≡ delete id_key (set mongo_id (text key) fs)
unfolding rename_id
rename_id-eq fs key h t = ground (arith, h, t)

renamed-dated :
    (dated : Fields) (found : Option Value)
    → get id_key dated ≡ found
    → get [] dated ≡ none
    → OnlyIs deleted_at null dated
    → get deleted_at dated ≡ some null
    → get deleted_at (flatten_keys (rename_id dated) end []) ≡ some null
unfolding ◌===◌ rename_id get
renamed-dated dated none q e o h =
    rw (rename_id, q) (get-flatten_set deleted_at refl null refl dated end e o h)
renamed-dated dated (some v) q e o h =
    rw (rename_id, q)
      (elim (Bool-cases (is_truthy v)) [
        | inl t ↦
            let moved = set mongo_id v dated in
            rw t (
              get-flatten_set deleted_at refl null refl (delete id_key moved) end
                (get-delete [] id_key moved ∙ (get-set [] mongo_id v dated ∙ e))
                (OnlyIs-delete deleted_at id_key null moved
                  (OnlyIs-set_other deleted_at mongo_id null v dated refl o))
                (get-delete deleted_at id_key moved ∙ (get-set deleted_at mongo_id v dated ∙ h)))
        | inr t ↦ rw t (get-flatten_set deleted_at refl null refl dated end e o h)
      ])

-- A converted filter asks for documents without a date of deletion.
pub convert_filter-dated :
    (input : Fields) → get [] input ≡ none → get deleted_at (convert_filter input) ≡ some null
unfolding convert_filter ◌===◌
convert_filter-dated input e =
    renamed-dated (set deleted_at null input) (get id_key (set deleted_at null input)) refl
      (get-set [] deleted_at null input ∙ e) (OnlyIs-set deleted_at null input)
      (get-set deleted_at deleted_at null input)

-- The filter of a search by an id, and whatever else the caller asks for, becomes a filter that
-- has this id as `_id`, has no `id`, and finds no document with a date of deletion. The one
-- condition is that no key of the filter is the empty text.
get-convert_filter :
    (input : Fields) (key : Text)
    → get [] input ≡ none
    → get id_key input ≡ some (text key)
    → truthy key ≡ true
    → (get mongo_id (convert_filter input) ≡ some (text key))
      × (get id_key (convert_filter input) ≡ none)
      × (get deleted_at (convert_filter input) ≡ some null)
unfolding convert_filter ◌===◌ get
get-convert_filter input key e i t =
    let dated = set deleted_at null input in
    let out = delete id_key (set mongo_id (text key) dated) in
    let dated_id : get id_key dated ≡ some (text key) = get-set id_key deleted_at null input ∙ i in
    let no_id : get id_key out ≡ none = get-delete id_key id_key (set mongo_id (text key) dated) in
    let has_id : get mongo_id out ≡ some (text key) =
      get-delete mongo_id id_key (set mongo_id (text key) dated)
      ∙ get-set mongo_id mongo_id (text key) dated in
    let has_date : get deleted_at out ≡ some null =
      get-delete deleted_at id_key (set mongo_id (text key) dated)
      ∙ (get-set deleted_at mongo_id (text key) dated ∙ get-set deleted_at deleted_at null input) in
    let no_empty : get [] out ≡ none =
      get-delete [] id_key (set mongo_id (text key) dated)
      ∙ (get-set [] mongo_id (text key) dated ∙ (get-set [] deleted_at null input ∙ e)) in
    rw (rename_id-eq dated key dated_id t) (
      get-flatten_set mongo_id refl (text key) refl out end no_empty
          (OnlyIs-delete mongo_id id_key (text key) (set mongo_id (text key) dated)
            (OnlyIs-set mongo_id (text key) dated))
          has_id,
      get-flatten_absent id_key out end refl no_empty no_id,
      get-flatten_set deleted_at refl null refl out end no_empty
          (OnlyIs-delete deleted_at id_key null (set mongo_id (text key) dated) (
            OnlyIs-set_other deleted_at mongo_id null (text key) dated refl
              (OnlyIs-set deleted_at null input)))
          has_date,
    )
