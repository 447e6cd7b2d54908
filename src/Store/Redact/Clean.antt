-- ===== src/Store/Redact/Clean.antt =====
-- What redaction leaves.
use agent_commerce.Prelude.{ap, arith, false, refl, true, ◌≡◌}
use agent_commerce.Json.{
  Fields, Items, Json, array, boolean, end, field, item, nil, null, number, object, string,
}
use agent_commerce.Store.Redact.{
  is_proto, is_secret_key, redact, redact_fields, redact_items, redacted,
}

-- At every depth, a field whose key looks secret holds "[REDACTED]".
abbrev mutual
  pub IsClean : Json → Type 0
  IsClean null = Unit
  IsClean (boolean b) = Unit
  IsClean (number n) = Unit
  IsClean (string s) = Unit
  IsClean (array xs) = CleanItems xs
  IsClean (object fs) = CleanFields fs

  pub CleanItems : Items → Type 0
  CleanItems nil = Unit
  CleanItems (item x xs) = IsClean x × CleanItems xs

  pub CleanFields : Fields → Type 0
  CleanFields end = Unit
  CleanFields (field k v fs) =
      (is_proto k ≡ false) × (is_secret_key k ≡ true → v ≡ redacted) × IsClean v × CleanFields fs

mutual
  unfolding redact redact_items redact_fields

  clean : (j : Json) → IsClean (redact j)
  clean null = tt
  clean (boolean b) = tt
  clean (number n) = tt
  clean (string s) = tt
  clean (array xs) = clean_items xs
  clean (object fs) = clean_fields fs

  clean_items : (xs : Items) → CleanItems (redact_items xs)
  clean_items nil = tt
  clean_items (item x xs) = (clean x, clean_items xs)

  clean_fields : (fs : Fields) → CleanFields (redact_fields fs)
  clean_fields end = tt
  clean_fields (field k v fs) = ground (arith, clean v, clean_fields fs)

-- After redaction every field with a secret-shaped key, at any depth, holds "[REDACTED]".
pub redact-IsClean : (j : Json) → IsClean (redact j)
redact-IsClean j = clean j

mutual
  unfolding redact redact_items redact_fields

  kept : (j : Json) → IsClean j → redact j ≡ j
  kept null h = refl
  kept (boolean b) h = refl
  kept (number n) h = refl
  kept (string s) h = refl
  kept (array xs) h = ap array (kept_items xs h)
  kept (object fs) h = ap object (kept_fields fs h)

  kept_items : (xs : Items) → CleanItems xs → redact_items xs ≡ xs
  kept_items nil h = refl
  kept_items (item x xs) h = ground (arith, kept x h.0, kept_items xs h.1)

  kept_fields : (fs : Fields) → CleanFields fs → redact_fields fs ≡ fs
  kept_fields end h = refl
  kept_fields (field k v fs) h = ground (arith, kept v h.2, kept_fields fs h.3)

-- A clean value comes back as it is, so redacting twice is redacting once.
pub redact_of_IsClean : (j : Json) → (IsClean j → redact j ≡ j) × (redact (redact j) ≡ redact j)
redact_of_IsClean j = (kept j, kept (redact j) (clean j))
