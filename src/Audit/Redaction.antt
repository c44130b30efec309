-- ===== src/Audit/Redaction.antt =====
-- `AuditService.sanitize_details` of audit/service.py.
use aiagent.Prelude.{
  String, List, Bool, ◌∷◌, if◌then◌else◌, Option, ◌≡◌, [], any, str_eq, true, false, ◌||◌, some,
  none, if_both, refl,
}
use aiagent.Json.{Json, Items, Fields, null, bool, num, str, arr, obj, nil, cons, end, field}

-- What the code takes from Python: `str.lower`, `str.replace`, `in` on texts, `str.endswith`, and
-- `urlsplit` (scheme, netloc and path) with `urlunsplit`.
pub record Texts : Type 0 where
  pub lower : String → String
  pub replace : String → String → String → String
  pub contains : String → String → Bool
  pub endswith : String → String → Bool
  pub urlsplit : String → String × String × String
  pub urlunsplit : String → String → String → String

abbrev pub redacted : String
redacted = "[REDACTED]"

abbrev pub sensitive_key_parts : List String
sensitive_key_parts =
    "token" ∷ "secret" ∷ "password" ∷ "authorization" ∷ "cookie" ∷ "api_key" ∷ "credential" ∷ []

abbrev pub url_key_suffixes : List String
url_key_suffixes = "_url" ∷ "_uri" ∷ "_endpoint" ∷ []

module _ (t : Texts) where
  abbrev normalized : String → String
  normalized key = t.replace (t.lower key) "-" "_"

  unfoldable pub is_sensitive : String → Bool
  is_sensitive key = any (λ part. t.contains (normalized key) part) sensitive_key_parts

  unfoldable pub is_url_key : String → Bool
  is_url_key key = any (λ suffix. t.endswith (normalized key) suffix) url_key_suffixes

  unfoldable pub remove_url_query : String → String
  remove_url_query value =
      let (scheme, netloc, path) = t.urlsplit value in
      if str_eq scheme "" || str_eq netloc "" then value else t.urlunsplit scheme netloc path

  unfoldable mutual
    pub sanitize : String → Json → Json
    sanitize key (str text) =
        if is_sensitive key
        then str redacted
        else if is_url_key key
        then str (remove_url_query text)
        else str text
    sanitize key (obj fields) =
        let inner = sanitize_fields fields in if is_sensitive key then str redacted else obj inner
    sanitize key (arr items) =
        let inner = sanitize_items items in if is_sensitive key then str redacted else arr inner
    sanitize key null = if is_sensitive key then str redacted else null
    sanitize key (bool b) = if is_sensitive key then str redacted else bool b
    sanitize key (num n) = if is_sensitive key then str redacted else num n

    pub sanitize_fields : Fields → Fields
    sanitize_fields end = end
    sanitize_fields (field key value fields) =
        field key (sanitize key value) (sanitize_fields fields)

    pub sanitize_items : Items → Items
    sanitize_items nil = nil
    sanitize_items (cons item items) = cons (sanitize "" item) (sanitize_items items)

  -- No result stands for the `TypeError`.
  unfoldable pub sanitize_details : Fields → Option Fields
  sanitize_details value = elim (sanitize "" (obj value)) [ obj fields ↦ some fields | _ ↦ none ]

  abbrev mutual
    -- At every depth: under a sensitive key stands the mark of redaction.
    pub IsRedacted : Json → Type 0
    IsRedacted (obj fields) = FieldsRedacted fields
    IsRedacted (arr items) = ItemsRedacted items
    IsRedacted _ = Unit

    pub FieldsRedacted : Fields → Type 0
    FieldsRedacted end = Unit
    FieldsRedacted (field key value fields) =
        (is_sensitive key ≡ true → value ≡ str redacted) × IsRedacted value × FieldsRedacted fields

    pub ItemsRedacted : Items → Type 0
    ItemsRedacted nil = Unit
    ItemsRedacted (cons item items) = IsRedacted item × ItemsRedacted items

  sanitize-key :
      (key : String) (value : Json) → is_sensitive key ≡ true → sanitize key value ≡ str redacted
  unfolding sanitize
  sanitize-key key (str text) h = rw h refl
  sanitize-key key (obj fields) h = rw h refl
  sanitize-key key (arr items) h = rw h refl
  sanitize-key key null h = rw h refl
  sanitize-key key (bool b) h = rw h refl
  sanitize-key key (num n) h = rw h refl

  mutual
    unfolding sanitize

    sanitize-IsRedacted : (key : String) (value : Json) → IsRedacted (sanitize key value)
    sanitize-IsRedacted key (str text) =
        if_both IsRedacted (is_sensitive key) (str redacted) _ (λ _. tt)
          (λ _. if_both IsRedacted (is_url_key key) _ (str text) (λ _. tt) (λ _. tt))
    sanitize-IsRedacted key (obj fields) =
        let inner = sanitize_fields-FieldsRedacted fields in
        if_both IsRedacted (is_sensitive key) (str redacted) _ (λ _. tt) (λ _. inner)
    sanitize-IsRedacted key (arr items) =
        let inner = sanitize_items-ItemsRedacted items in
        if_both IsRedacted (is_sensitive key) (str redacted) _ (λ _. tt) (λ _. inner)
    sanitize-IsRedacted key null = if_both IsRedacted (is_sensitive key) _ _ (λ _. tt) (λ _. tt)
    sanitize-IsRedacted key (bool b) = if_both IsRedacted (is_sensitive key) _ _ (λ _. tt) (λ _. tt)
    sanitize-IsRedacted key (num n) = if_both IsRedacted (is_sensitive key) _ _ (λ _. tt) (λ _. tt)

    sanitize_fields-FieldsRedacted : (fields : Fields) → FieldsRedacted (sanitize_fields fields)
    sanitize_fields-FieldsRedacted end = tt
    sanitize_fields-FieldsRedacted (field key value fields) = (
      sanitize-key key value,
      sanitize-IsRedacted key value,
      sanitize_fields-FieldsRedacted fields,
    )

    sanitize_items-ItemsRedacted : (items : Items) → ItemsRedacted (sanitize_items items)
    sanitize_items-ItemsRedacted nil = tt
    sanitize_items-ItemsRedacted (cons item items) =
        (sanitize-IsRedacted "" item, sanitize_items-ItemsRedacted items)

  -- Where the empty key is not sensitive, `sanitize_details` returns, and in what it returns, at every
  -- depth, there is nothing but the mark of redaction under a sensitive key.
  pub sanitize_details-FieldsRedacted :
      (value : Fields)
      → is_sensitive "" ≡ false
      → (fields : Fields) × (sanitize_details value ≡ some fields) × FieldsRedacted fields
  unfolding sanitize_details sanitize
  sanitize_details-FieldsRedacted value h =
      (sanitize_fields value, rw (h, sanitize_details) refl, sanitize_fields-FieldsRedacted value)
