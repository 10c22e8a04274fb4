-- ===== src/Entities/Identity/Unique.antt =====
-- The unique ids that custom_components/aqara_u200/ registers its entities under: Home Assistant takes
-- no two entities of a platform with the same one.
use haos_aqara.Base.{
  ℕ, ◌≡◌, refl, ◌≢◌, ap, ◌∙◌, sym, subst, Bool, true, not, ◌&&◌, String, List, [], ◌∷◌, ◌++◌, ◌==◌,
  list_eq, nat_eq, arith, length, All, All-append, Distinct, Text, codes, and-eq-true,
  list_beq_refl, false≢true,
}
use haos_aqara.Entities.Identity.{Owner, Identity, unique_id_of}
use haos_aqara.Entities.Identity.Platforms.{
  Platform, lock, sensor, binary_sensor, select, number, switch, button, entities,
}

-- The unique ids on a platform, of one entry and of all entries.
abbrev unique_ids : List Identity → List Text
unique_ids [] = []
unique_ids (entity ∷ entities) = entity.unique_id ∷ unique_ids entities

abbrev pub registered : Platform → List Owner → List Text
registered platform [] = []
registered platform (entry ∷ entries) =
    unique_ids (entities platform entry) ++ registered platform entries

abbrev pub addresses : List Owner → List Text
addresses [] = []
addresses (entry ∷ entries) = entry.address ∷ addresses entries

-- The keys behind the address, platform by platform.
keys : Platform → List String
keys lock = "lock" ∷ []
keys sensor =
    "battery" ∷ "rssi" ∷ "door_type" ∷ "pull_spring_retraction" ∷ "system_volume" ∷ "language"
    ∷ "credentials" ∷ []
keys binary_sensor = "connectivity" ∷ "assist_turn" ∷ "pull_spring" ∷ []
keys select = "alert_volume" ∷ "alarm_volume" ∷ "language" ∷ []
keys number =
    "alert_delay" ∷ "verify_fail_time" ∷ "auto_lockup_relock_delay" ∷ "auto_lock_on_close_delay"
    ∷ []
keys switch = "assist_turn" ∷ "auxiliary_close_to_lock" ∷ "auxiliary_resume_lock" ∷ []
keys button =
    "refresh" ∷ "enable_auxiliary_locking_on_close" ∷ "enable_auxiliary_locking_relock" ∷ []

abbrev with_address : Text → List String → List Text
with_address address [] = []
with_address address (key ∷ keys) = unique_id_of address key ∷ with_address address keys

entities-keys :
    (platform : Platform) (entry : Owner)
    → unique_ids (entities platform entry) ≡ with_address entry.address (keys platform)
unfolding entities keys
entities-keys lock entry = refl
entities-keys sensor entry = refl
entities-keys binary_sensor entry = refl
entities-keys select entry = refl
entities-keys number entry = refl
entities-keys switch entry = refl
entities-keys button entry = refl

-- A list of texts without doubles, as a test.
absent : Text → List String → Bool
absent text [] = true
absent text (key ∷ keys) = let rest = absent text keys in not (text == codes key) && rest

all_differ : List String → Bool
unfolding absent
all_differ [] = true
all_differ (key ∷ keys) = let rest = all_differ keys in absent (codes key) keys && rest

keys-differ : (platform : Platform) → all_differ (keys platform) ≡ true
unfolding all_differ keys
keys-differ lock = refl
keys-differ sensor = refl
keys-differ binary_sensor = refl
keys-differ select = refl
keys-differ number = refl
keys-differ switch = refl
keys-differ button = refl

-- Texts that start with parts of the same length are equal in both parts.
split_equal :
    (xs ys xs' ys' : Text)
    → length xs ≡ length xs'
    → xs ++ ys ≡ xs' ++ ys'
    → (xs ≡ xs') × (ys ≡ ys')
split_equal [] ys [] ys' l e = (refl, e)
split_equal [] ys (x ∷ xs') ys' l e = absurd (omega arith)
split_equal (x ∷ xs) ys [] ys' l e = absurd (omega arith)
split_equal (x ∷ xs) ys (x' ∷ xs') ys' l e =
    let tails : xs ++ ys ≡ xs' ++ ys' = cc in
    let heads : x ≡ x' = cc in let (p, q) = split_equal xs ys xs' ys' (omega arith) tails in (cc, q)

-- Of two ids with addresses of the same length, the addresses and the keys are told apart.
id_inj :
    (a b : Text) (k l : String)
    → length a ≡ length b
    → unique_id_of a k ≡ unique_id_of b l
    → (a ≡ b) × (codes k ≡ codes l)
unfolding unique_id_of
id_inj a b k l same e =
    let (p, q) = split_equal a (codes "_" ++ codes k) b (codes "_" ++ codes l) same e in
    (p, (split_equal (codes "_") (codes k) (codes "_") (codes l) refl q).1)

absent-ids :
    (address : Text) (key : String) (keys : List String)
    → absent (codes key) keys ≡ true
    → All (λ id. unique_id_of address key ≢ id) (with_address address keys)
unfolding absent
absent-ids address key [] h = tt
absent-ids address key (k ∷ keys) h =
    let (differs, rest) = and-eq-true (not (codes key == codes k)) (absent (codes key) keys) h in
    (
      λ e.
          let same : codes key ≡ codes k = (id_inj address address key k refl e).1 in
          let bad : not (codes key == codes key) ≡ true =
            ap (λ text. not (codes key == text)) same ∙ differs in
          false≢true (sym (ap not (list_beq_refl (codes key))) ∙ bad),
      absent-ids address key keys rest,
    )

ids-Distinct :
    (address : Text) (keys : List String)
    → all_differ keys ≡ true
    → Distinct (with_address address keys)
unfolding all_differ
ids-Distinct address [] h = tt
ids-Distinct address (key ∷ keys) h =
    let (differs, rest) = and-eq-true (absent (codes key) keys) (all_differ keys) h in
    (absent-ids address key keys differs, ids-Distinct address keys rest)

-- Ids of different addresses differ.
apart-ids :
    (a b : Text) (key : String) (keys : List String)
    → length a ≡ length b
    → a ≢ b
    → All (λ id. unique_id_of a key ≢ id) (with_address b keys)
apart-ids a b key [] same apart = tt
apart-ids a b key (k ∷ keys) same apart =
    (λ e. apart (id_inj a b key k same e).0, apart-ids a b key keys same apart)

Distinct-append :
    (xs ys : List Text)
    → Distinct xs
    → Distinct ys
    → All (λ x. All (λ y. x ≢ y) ys) xs
    → Distinct (xs ++ ys)
Distinct-append [] ys h k apart = k
Distinct-append (x ∷ xs) ys (h, hs) k (x_apart, apart) =
    (All-append (λ y. x ≢ y) xs ys h x_apart, Distinct-append xs ys hs k apart)

module _ (platform : Platform) (n : ℕ) where
  id-apart :
      (a : Text) (key : String) (entries : List Owner)
      → length a ≡ n
      → All (λ b. length b ≡ n) (addresses entries)
      → All (λ b. a ≢ b) (addresses entries)
      → All (λ id. unique_id_of a key ≢ id) (registered platform entries)
  id-apart a key [] l ls apart = tt
  id-apart a key (entry ∷ entries) l (m, ls) (differs, apart) =
      All-append (λ id. unique_id_of a key ≢ id) (unique_ids (entities platform entry))
        (registered platform entries)
        (subst (All (λ id. unique_id_of a key ≢ id)) (sym (entities-keys platform entry))
          (apart-ids a entry.address key (keys platform) (l ∙ sym m) differs))
        (id-apart a key entries l ls apart)

  ids-apart :
      (a : Text) (ks : List String) (entries : List Owner)
      → length a ≡ n
      → All (λ b. length b ≡ n) (addresses entries)
      → All (λ b. a ≢ b) (addresses entries)
      → All (λ x. All (λ y. x ≢ y) (registered platform entries)) (with_address a ks)
  ids-apart a [] entries l ls apart = tt
  ids-apart a (key ∷ ks) entries l ls apart =
      (id-apart a key entries l ls apart, ids-apart a ks entries l ls apart)

  -- Whichever locks are set up, as long as their addresses differ and are written with the same number
  -- of characters: no two entities of a platform, of the same lock or of two, have the same unique id.
  pub registered-Distinct :
      (entries : List Owner)
      → All (λ address. length address ≡ n) (addresses entries)
      → Distinct (addresses entries)
      → Distinct (registered platform entries)
  registered-Distinct [] ls h = tt
  registered-Distinct (entry ∷ entries) (l, ls) (apart, h) =
      subst (λ ids. Distinct (ids ++ registered platform entries))
        (sym (entities-keys platform entry))
        (Distinct-append (with_address entry.address (keys platform)) (registered platform entries)
          (ids-Distinct entry.address (keys platform) (keys-differ platform))
          (registered-Distinct entries ls h)
          (ids-apart entry.address (keys platform) entries l ls apart))
