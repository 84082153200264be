-- ===== src/Relay/Locked.antt =====
-- What it means that a transaction write-locks the tip account, and that the check decides it.
use engine_mev.Base.{
  ℕ, zero, suc, ◌+◌, ◌-◌, ◌<◌, ◌≤◌, ◌≡◌, refl, ◌∙◌, ap, Bool, true, false, Option, none, some, List,
  [], ◌∷◌, ◌⊎◌, inl, inr, length, get_elem?, ◌==◌, ltb, Occurs, Bool-cases, arith, if◌then◌else◌,
}
use engine_mev.Pool.{Pubkey}
use engine_mev.Relay.{
  Message, TableLookup, LookupTable, VersionedMessage, legacy, v0, scan, static_locked, find_table,
  names_tip, lookups_lock, verify_tip_write_locked, or_else_check, is_tip, table_names_tip,
}

-- The key is among the keys from one index to before another.
abbrev pub IsBetween : List Pubkey → Pubkey → ℕ → ℕ → Type 0
IsBetween keys k low high = (j : ℕ) × (low ≤ j) × (j < high) × (get_elem? keys j ≡ some k)

-- The check returns, and its answer is the truth of P.
abbrev pub Decides : Type 0 → Option Bool → Type 0
Decides P m = ((m ≡ some true) × P) ⊎ ((m ≡ some false) × (P → ⊥))

get_elem-within :
    (keys : List Pubkey) (i : ℕ) → i < length keys → (k : Pubkey) × (get_elem? keys i ≡ some k)
get_elem-within [] i h = absurd (omega (arith, h))
get_elem-within (k ∷ keys) zero h = (k, refl)
get_elem-within (k ∷ keys) (suc i) h = get_elem-within keys i (omega (arith, h))

same_or_later : (i j : ℕ) → i ≤ j → (j ≡ i) ⊎ (suc i ≤ j)
same_or_later i j h = elim (Bool-cases (ltb i j)) [
  | inl e ↦ inr (ground arith)
  | inr e ↦ inl (ground arith)
]

scan-Decides :
    (keys : List Pubkey) (tip : Pubkey) (i n : ℕ)
    → i + n ≤ length keys
    → Decides (IsBetween keys tip i (i + n)) (scan keys tip i n)
unfolding scan
scan-Decides keys tip i zero h = inr (refl, λ (j, low, high, e). omega (arith, low, high))
scan-Decides keys tip i (suc n) h =
    let (key, found) = get_elem-within keys i (omega (arith, h)) in
    elim (Bool-cases (key == tip)) [
      | inl e ↦
          let same : key ≡ tip = ground arith in
          inl (rw (scan, found, e) refl, (i, omega arith, omega arith, found ∙ ap some same))
      | inr e ↦
          let goes : scan keys tip i (suc n) ≡ scan keys tip (suc i) n = rw (scan, found, e) refl in
          elim (scan-Decides keys tip (suc i) n (omega (arith, h))) [
            | inl (run, (j, low, high, at)) ↦
                inl (goes ∙ run, (j, omega (arith, low), omega (arith, high), at))
            | inr (run, none_there) ↦ inr (
              goes ∙ run,
              λ (j, low, high, at). elim (same_or_later i j low) [
                | inl here ↦ absurd (ground (arith, e, here, found, at))
                | inr later ↦ none_there (j, later, omega (arith, high), at)
              ],
            )
          ]
    ]

range-Decides :
    (keys : List Pubkey) (tip : Pubkey) (low high n : ℕ)
    → n ≡ high - low
    → low ≤ length keys
    → high ≤ length keys
    → Decides (IsBetween keys tip low high) (scan keys tip low n)
range-Decides keys tip low high n size h k =
    elim (scan-Decides keys tip low n (omega (arith, size, h, k))) [
      | inl (run, (j, a, b, e)) ↦ inl (run, (j, a, omega (arith, size, a, b), e))
      | inr (run, absent) ↦ inr (run, λ (j, a, b, e). absent (j, a, omega (arith, size, a, b), e))
    ]

or-Decides :
    (P Q : Type 0) (m n : Option Bool)
    → Decides P m
    → Decides Q n
    → Decides (P ⊎ Q) (or_else_check m n)
or-Decides P Q m n (inl (run, p)) d = inl (rw (run) refl, inl p)
or-Decides P Q m n (inr (run, absent)) (inl (run', q)) = inl (rw (run) run', inr q)
or-Decides P Q m n (inr (run, absent)) (inr (run', absent')) =
    inr (rw (run) run', λ x. elim x [ inl p ↦ absent p | inr q ↦ absent' q ])

-- The tip account is a static key that the header of the message makes writable: signed or not.
abbrev pub IsWritableKey : Message → Pubkey → Type 0
IsWritableKey m tip =
    IsBetween m.account_keys tip 0 (m.num_required_signatures - m.num_readonly_signed_accounts)
    ⊎ IsBetween m.account_keys tip m.num_required_signatures
        (length m.account_keys - m.num_readonly_unsigned_accounts)

-- A lookup resolves the tip account out of one of the tables, as a writable one.
abbrev pub IsLookedUp : List LookupTable → Pubkey → TableLookup → Type 0
IsLookedUp alts tip l =
    (t : LookupTable) × (idx : ℕ) × (find_table alts l.account_key ≡ some t)
    × Occurs idx l.writable_indexes
    × (get_elem? t.addresses idx ≡ some tip)

abbrev pub IsWriteLocked : List LookupTable → Pubkey → VersionedMessage → Type 0
IsWriteLocked alts tip (legacy m) = IsWritableKey m tip
IsWriteLocked alts tip (v0 m lookups) =
    IsWritableKey m tip ⊎ ((l : TableLookup) × Occurs l lookups × IsLookedUp alts tip l)

-- Every signer has its key.
abbrev pub HasSigners : VersionedMessage → Type 0
HasSigners (legacy m) = m.num_required_signatures ≤ length m.account_keys
HasSigners (v0 m lookups) = m.num_required_signatures ≤ length m.account_keys

static_locked-Decides :
    (m : Message) (tip : Pubkey)
    → m.num_required_signatures ≤ length m.account_keys
    → Decides (IsWritableKey m tip) (static_locked m tip)
unfolding static_locked
static_locked-Decides m tip h =
    or-Decides _ _ _ _
      (range-Decides m.account_keys tip 0
        (m.num_required_signatures - m.num_readonly_signed_accounts)
        (m.num_required_signatures - m.num_readonly_signed_accounts) (omega arith) (omega arith)
        (omega (arith, h)))
      (range-Decides m.account_keys tip m.num_required_signatures
        (length m.account_keys - m.num_readonly_unsigned_accounts)
        (length m.account_keys - m.num_readonly_unsigned_accounts - m.num_required_signatures) refl
        h (omega arith))

-- A search: the first element, or the others.
cons-Decides :
    {A : Type 0} (P : A → Type 0) (x : A) (rest : List A) (first later : Bool)
    → Decides (P x) (some first)
    → Decides ((y : A) × Occurs y rest × P y) (some later)
    → Decides ((y : A) × Occurs y (x ∷ rest) × P y) (some (if first then true else later))
cons-Decides P x rest true later (inl (e, p)) d = inl (refl, (x, inl refl, p))
cons-Decides P x rest true later (inr (e, absent)) d = cc
cons-Decides P x rest false later (inl (e, p)) d = cc
cons-Decides P x rest false later (inr (e, absent)) (inl (e', (y, o, p))) = inl (e', (y, inr o, p))
cons-Decides P x rest false later (inr (e, absent)) (inr (e', none_there)) = inr (
  e',
  λ (y, o, p). elim o [ inl same ↦ absent (rw (same) at p) | inr among ↦ none_there (y, among, p) ],
)

is_tip-Decides :
    (found : Option Pubkey) (tip : Pubkey) → Decides (found ≡ some tip) (some (is_tip found tip))
is_tip-Decides none tip = inr (refl, λ e. cc)
is_tip-Decides (some key) tip = elim (Bool-cases (key == tip)) [
  | inl e ↦ inl (ap some e, ground arith)
  | inr e ↦ inr (ap some e, λ same. absurd (ground arith))
]

names_tip-Decides :
    (addresses : List Pubkey) (tip : Pubkey) (indexes : List ℕ)
    → Decides
        ((idx : ℕ) × Occurs idx indexes × (get_elem? addresses idx ≡ some tip))
        (some (names_tip addresses tip indexes))
unfolding names_tip
names_tip-Decides addresses tip [] = inr (refl, λ (idx, o, e). o)
names_tip-Decides addresses tip (i ∷ rest) =
    cons-Decides (λ idx. get_elem? addresses idx ≡ some tip) i rest
      (is_tip (get_elem? addresses i) tip) (names_tip addresses tip rest)
      (is_tip-Decides (get_elem? addresses i) tip) (names_tip-Decides addresses tip rest)

-- Whether the table that a lookup finds names the account.
table-Decides :
    (found : Option LookupTable) (tip : Pubkey) (indexes : List ℕ)
    → Decides
        ((t : LookupTable) × (idx : ℕ) × (found ≡ some t)
          × Occurs idx indexes
          × (get_elem? t.addresses idx ≡ some tip))
        (some (table_names_tip found tip indexes))
table-Decides none tip indexes = inr (refl, λ (t, idx, e, o, at). cc)
table-Decides (some t) tip indexes = elim (names_tip-Decides t.addresses tip indexes) [
  | inl (run, (idx, o, at)) ↦ inl (run, (t, idx, refl, o, at))
  | inr (run, absent) ↦ inr (
    run,
    λ (t', idx, e, o, at). let same : t ≡ t' = ground arith in absent (idx, o, rw (same) at),
  )
]

lookups_lock-Decides :
    (alts : List LookupTable) (tip : Pubkey) (lookups : List TableLookup)
    → Decides
        ((l : TableLookup) × Occurs l lookups × IsLookedUp alts tip l)
        (some (lookups_lock alts tip lookups))
unfolding lookups_lock
lookups_lock-Decides alts tip [] = inr (refl, λ (l, o, e). o)
lookups_lock-Decides alts tip (l ∷ rest) =
    cons-Decides (IsLookedUp alts tip) l rest
      (table_names_tip (find_table alts l.account_key) tip l.writable_indexes)
      (lookups_lock alts tip rest)
      (table-Decides (find_table alts l.account_key) tip l.writable_indexes)
      (lookups_lock-Decides alts tip rest)

-- The check decides whether the message write-locks the tip account: for messages that have a key
-- for every signer it returns, with `true` exactly where the account is a key that the header makes
-- writable, or is resolved as a writable one out of a lookup table.
pub verify_tip_write_locked-Decides :
    (message : VersionedMessage) (tip : Pubkey) (alts : List LookupTable)
    → HasSigners message
    → Decides (IsWriteLocked alts tip message) (verify_tip_write_locked message tip alts)
unfolding verify_tip_write_locked
verify_tip_write_locked-Decides (legacy m) tip alts h = static_locked-Decides m tip h
verify_tip_write_locked-Decides (v0 m lookups) tip alts h =
    or-Decides _ _ _ _ (static_locked-Decides m tip h) (lookups_lock-Decides alts tip lookups)
