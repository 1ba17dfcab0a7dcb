-- ===== src/Content/RichText/Images.antt =====
-- The media of an accepted rich text value.
use mathlib.Core.Path.{sym, subst}
use saas_forge.Base.{
  ◌∙◌, ◌++◌, ◌-◌, ◌⊎◌, String, Bool, true, false, List, [], ◌∷◌, Option, some, none, ◌==◌,
  string_eq, nat_eq, contains, ltb, ℕ, ◌+◌, ◌≤◌, length, if◌then◌else◌, ◌&&◌, ◌||◌, ◌≡◌, refl,
  arith, All, Bool-cases, Option-cases, inl, inr, equal_refl,
}
use saas_forge.Content.Constraints.{Library, first_error}
use saas_forge.Content.Json.{
  Members, Json, Object, as_array, text_under, null, bool, string, float64, array, object, elements,
  entries,
}
use saas_forge.Content.RichText.{
  max_blocks, new_media, block_image, max_image_blocks, validate_block, validate_blocks,
  validate_rich_text, media_of, collect_media, collect_rich_text_media_ids, is_parsed,
}
use saas_forge.Content.RichText.Spans.{Packages, Locator, at_index}

-- the media id that an image block writes
abbrev pub image_id : {F : Type 0} → Object F → String
image_id block = text_under "media_id" block

-- Each image block of a document names a media asset that is among `ids`.
abbrev pub IsCollected : {F : Type 0} → Packages → List ℕ → Json F → Type 0
IsCollected go ids (object ms) =
    (text_under "type" (entries ms) == block_image) ≡ true
    → (id : ℕ) × (go.parse_uuid (image_id (entries ms)) ≡ some id) × (contains ids id ≡ true)
IsCollected go ids _ = Unit

-- No id is there twice.
abbrev pub IsNodup : List ℕ → Type 0
IsNodup [] = Unit
IsNodup (id ∷ ids) = (contains ids id ≡ false) × IsNodup ids

module _ {F : Type 0} where
  abbrev is_image : Object F → Bool
  is_image block = text_under "type" block == block_image

  abbrev image_count : Object F → ℕ
  image_count block = if is_image block then 1 else 0

accepted :
    {A : Type 0} (b : Bool) (e : A) (x y : Option A)
    → (if b then some e else first_error x y) ≡ none
    → (b ≡ false) × (x ≡ none) × (y ≡ none)
accepted true e x y h = cc
accepted false e none y h = (refl, refl, h)
accepted false e (some d) y h = cc

parsed_some : (o : Option ℕ) → is_parsed o ≡ true → (id : ℕ) × (o ≡ some id)
parsed_some none h = elim (nothing h) [ ]
  where
    nothing : false ≡ true → ⊥
    nothing e = cc
parsed_some (some id) h = (id, refl)

-- A block that is no image block.
abbrev IsPlain : {F : Type 0} → Json F → Type 0
IsPlain (object ms) = (text_under "type" (entries ms) == block_image) ≡ false
IsPlain _ = Unit

refused : {A : Type 0} {e : A} → some e ≡ none → ⊥
refused h = cc

past_guard :
    {A : Type 0} (b : Bool) (e : A) (x : Option A) → (if b then some e else x) ≡ none → x ≡ none
past_guard true e x h = cc
past_guard false e x h = h

taken :
    (seen rest : List ℕ) (o : Option ℕ) (id : ℕ)
    → o ≡ some id
    → (contains seen id || contains (new_media seen o ++ rest) id) ≡ true
taken seen rest none id e = cc
taken seen rest (some n) id e =
    subst (λ m. (contains seen m || contains (new_media seen (some n) ++ rest) m) ≡ true) (cc)
      (here seen rest n)
  where
    here :
        (seen rest : List ℕ) (n : ℕ)
        → (contains seen n || contains (new_media seen (some n) ++ rest) n) ≡ true
    here seen rest n = elim (Bool-cases (contains seen n)) [
      | inl old ↦ rw old refl
      | inr new ↦ rw new (rw (equal_refl n) refl)
    ]

either_way :
    (seen new rest : List ℕ) (x : ℕ)
    → (contains (new ++ seen) x || contains rest x) ≡ true
    → (contains seen x || contains (new ++ rest) x) ≡ true
either_way seen [] rest x h = h
either_way seen (n ∷ new) rest x h = elim (Bool-cases (n == x)) [
  | inl same ↦ ground arith
  | inr other ↦ ground (arith, either_way seen new rest x)
]

other_member :
    (l : List ℕ) (a b : ℕ) → contains l a ≡ false → contains l b ≡ true → (a == b) ≡ false
other_member l a b out in_ = elim (Bool-cases (a == b)) [
  | inl same ↦
      elim (clash (subst (λ x. contains l x ≡ true) (sym ((nat_eq.equal_iff a b).0 same)) in_)
        out) [ ]
  | inr other ↦ other
]
  where
    clash : {x : Bool} → x ≡ true → x ≡ false → ⊥
    clash p q = cc

module _ {F : Type 0} (lib : Library F) (go : Packages) where
  -- An accepted image block has an id that parses.
  validate_block-image :
      (path : Locator) (block : Object F)
      → validate_block lib go path block_image block ≡ none
      → is_parsed (go.parse_uuid (image_id block)) ≡ true
  unfolding validate_block
  validate_block-image path block h = ground arith

  -- The facts of one accepted block.
  validate_blocks-step :
      (i images : ℕ) (ms : Members F) (blocks : List (Json F))
      → validate_blocks lib go i images (object ms ∷ blocks) ≡ none
      → ((is_image (entries ms) && ltb max_image_blocks (images + image_count (entries ms)))
          ≡ false)
        × (validate_block lib go (at_index i ∷ []) (text_under "type" (entries ms)) (entries ms)
            ≡ none)
        × (validate_blocks lib go (i + 1) (images + image_count (entries ms)) blocks ≡ none)
  unfolding validate_blocks
  validate_blocks-step i images ms blocks h =
      accepted (is_image (entries ms) && ltb max_image_blocks (images + image_count (entries ms))) _
        (validate_block lib go (at_index i ∷ []) (text_under "type" (entries ms)) (entries ms))
        (validate_blocks lib go (i + 1) (images + image_count (entries ms)) blocks) h

  -- An accepted block is no image and names no media, or is one of the images that may be and names one.
  abbrev BlockFacts : ℕ → ℕ → Json F → List (Json F) → Type 0
  BlockFacts i images b blocks =
      (media_of go b ≡ none) × (validate_blocks lib go (i + 1) images blocks ≡ none) × IsPlain b
      ⊎ (id : ℕ) × (media_of go b ≡ some id)
        × (images + 1 ≤ max_image_blocks)
        × (validate_blocks lib go (i + 1) (images + 1) blocks ≡ none)

  block_facts :
      (i images : ℕ) (b : Json F) (blocks : List (Json F))
      → validate_blocks lib go i images (b ∷ blocks) ≡ none
      → BlockFacts i images b blocks
  unfolding validate_blocks
  block_facts i images (object ms) blocks h =
      let (few, fine, rest) = validate_blocks-step i images ms blocks h in
      elim (Bool-cases (is_image (entries ms))) [
        | inl image ↦
            let typ = (string_eq.equal_iff (text_under "type" (entries ms)) block_image).0 image in
            let parsed = validate_block-image (at_index i ∷ []) (entries ms) (
              subst (λ t. validate_block lib go (at_index i ∷ []) t (entries ms) ≡ none) typ
                fine) in
            let (id, has_id) = parsed_some (go.parse_uuid (image_id (entries ms))) parsed in
            let one : image_count (entries ms) ≡ 1 = rw image refl in
            inr (
              id,
              rw image has_id,
              (ground (arith, one, image)),
              subst (λ n. validate_blocks lib go (i + 1) (images + n) blocks ≡ none) one rest,
            )
        | inr other ↦
            let zero_more : images + image_count (entries ms) ≡ images = rw other (omega arith) in
            inl (
              rw other refl,
              subst (λ n. validate_blocks lib go (i + 1) n blocks ≡ none) zero_more rest,
              other,
            )
      ]
  block_facts i images null blocks h = elim (refused h) [ ]
  block_facts i images (bool b) blocks h = elim (refused h) [ ]
  block_facts i images (string b) blocks h = elim (refused h) [ ]
  block_facts i images (float64 b) blocks h = elim (refused h) [ ]
  block_facts i images (array b) blocks h = elim (refused h) [ ]

  -- No more ids are collected than there may be image blocks.
  collect_media-bound :
      (i images : ℕ) (seen : List ℕ) (blocks : List (Json F))
      → validate_blocks lib go i images blocks ≡ none
      → images ≤ max_image_blocks
      → length (collect_media go seen blocks) ≤ max_image_blocks - images
  unfolding collect_media
  collect_media-bound i images seen [] h b = omega arith
  collect_media-bound i images seen (b ∷ blocks) h few = elim (block_facts i images b blocks h) [
    | inl (no_media, rest, _) ↦
        rw no_media (collect_media-bound (i + 1) images seen blocks rest few)
    | inr (id, media, more, rest) ↦
        let ih = λ (l : List ℕ). collect_media-bound (i + 1) (images + 1) l blocks rest more in
        elim (Bool-cases (contains seen id)) [
          | inl old ↦ rw (media, old) (omega (arith, more, ih seen))
          | inr new ↦ rw media (rw new (omega (arith, more, ih (id ∷ seen))))
        ]
  ]

module _ {F : Type 0} (go : Packages) where
  -- What was seen before is not collected again, and nothing is collected twice.
  collect_media-fresh :
      (seen : List ℕ) (blocks : List (Json F)) (x : ℕ)
      → contains seen x ≡ true
      → contains (collect_media go seen blocks) x ≡ false
  unfolding collect_media
  collect_media-fresh seen [] x h = refl
  collect_media-fresh seen (b ∷ blocks) x h = elim (Option-cases (media_of go b)) [
    | inl no_media ↦ rw no_media (collect_media-fresh seen blocks x h)
    | inr (id, media) ↦ elim (Bool-cases (contains seen id)) [
      | inl old ↦ rw (media, old) (collect_media-fresh seen blocks x h)
      | inr new ↦
          let differs = other_member seen id x new h in
          let ih = collect_media-fresh (id ∷ seen) blocks x (rw differs h) in
          rw media (rw new (rw differs ih))
    ]
  ]

  collect_media-IsNodup :
      (seen : List ℕ) (blocks : List (Json F)) → IsNodup (collect_media go seen blocks)
  unfolding collect_media
  collect_media-IsNodup seen [] = tt
  collect_media-IsNodup seen (b ∷ blocks) = elim (Option-cases (media_of go b)) [
    | inl no_media ↦ rw no_media (collect_media-IsNodup seen blocks)
    | inr (id, media) ↦ elim (Bool-cases (contains seen id)) [
      | inl old ↦ rw (media, old) (collect_media-IsNodup seen blocks)
      | inr new ↦
          let fresh = collect_media-fresh (id ∷ seen) blocks id (rw (equal_refl id) refl) in
          rw media (rw new (fresh, collect_media-IsNodup (id ∷ seen) blocks))
    ]
  ]

  -- Every id that a block names was seen or is collected.
  collect_media_complete :
      (seen : List ℕ) (blocks : List (Json F)) (ids : List ℕ)
      → ((x : ℕ)
          → (contains seen x || contains (collect_media go seen blocks) x) ≡ true
          → contains ids x ≡ true)
      → All (λ b. (id : ℕ) → media_of go b ≡ some id → contains ids id ≡ true) blocks
  unfolding collect_media
  collect_media_complete seen [] ids k = tt
  collect_media_complete seen (b ∷ blocks) ids k =
      let new = new_media seen (media_of go b) in
      let rest = collect_media go (new ++ seen) blocks in
      (
        (λ id media. k id (taken seen rest (media_of go b) id media)),
        collect_media_complete (new ++ seen) blocks ids (λ x h. k x (either_way seen new rest x h)),
      )

module _ {F : Type 0} (lib : Library F) (go : Packages) where
  -- In an accepted document each block is no image or names a media asset.
  images_named :
      (i images : ℕ) (blocks : List (Json F)) (ids : List ℕ)
      → validate_blocks lib go i images blocks ≡ none
      → All (λ b. (id : ℕ) → media_of go b ≡ some id → contains ids id ≡ true) blocks
      → All (IsCollected go ids) blocks
  unfolding validate_blocks
  images_named i images [] ids h k = tt
  images_named i images (object ms ∷ blocks) ids h k =
      elim (block_facts lib go i images (object ms) blocks h) [
        | inl (no_media, rest, plain) ↦ (
          (λ image. elim (no_image image plain) [ ]),
          images_named (i + 1) images blocks ids rest k.1,
        )
        | inr (id, media, more, rest) ↦ (
          (λ image. (id, named image media, k.0 id media)),
          images_named (i + 1) (images + 1) blocks ids rest k.1,
        )
      ]
    where
      no_image : {b : Bool} → b ≡ true → b ≡ false → ⊥
      no_image p q = cc

      named :
          is_image (entries ms) ≡ true
          → {o : Option ℕ} → media_of go (object ms) ≡ o
          → go.parse_uuid (image_id (entries ms)) ≡ o
      named image media = sym (rw image refl) ∙ media
  images_named i images (null ∷ blocks) ids h k = elim (refused h) [ ]
  images_named i images (bool b ∷ blocks) ids h k = elim (refused h) [ ]
  images_named i images (string b ∷ blocks) ids h k = elim (refused h) [ ]
  images_named i images (float64 b ∷ blocks) ids h k = elim (refused h) [ ]
  images_named i images (array b ∷ blocks) ids h k = elim (refused h) [ ]

  -- An accepted rich text value is an array; each of its image blocks names a media asset that is
  -- collected from it, no asset is collected twice, and no more than the limit on image blocks.
  pub collect_rich_text_media_ids-accepted :
      (v : Json F)
      → validate_rich_text lib go v ≡ none
      → (blocks : List (Json F)) × (as_array v ≡ some blocks)
        × All (IsCollected go (collect_rich_text_media_ids go v)) blocks
        × IsNodup (collect_rich_text_media_ids go v)
        × (length (collect_rich_text_media_ids go v) ≤ max_image_blocks)
  unfolding validate_rich_text collect_rich_text_media_ids
  collect_rich_text_media_ids-accepted (array xs) h =
      let blocks = elements xs in
      let ids = collect_media go [] blocks in
      let fine =
        past_guard (ltb max_blocks (length blocks)) _ (validate_blocks lib go 0 0 blocks) h in
      (
        blocks,
        refl,
        images_named 0 0 blocks ids fine (collect_media_complete go [] blocks ids (λ x h. h)),
        collect_media-IsNodup go [] blocks,
        omega (arith, collect_media-bound lib go 0 0 [] blocks fine (omega arith)),
      )
  collect_rich_text_media_ids-accepted null h = elim (refused h) [ ]
  collect_rich_text_media_ids-accepted (bool b) h = elim (refused h) [ ]
  collect_rich_text_media_ids-accepted (string s) h = elim (refused h) [ ]
  collect_rich_text_media_ids-accepted (float64 f) h = elim (refused h) [ ]
  collect_rich_text_media_ids-accepted (object ms) h = elim (refused h) [ ]
