-- ===== src/Ledger/Items.antt =====
-- ledger.py: `DiscoveredItem` and `Evidence`, and their JSON forms. `V` is the type of the values inside
-- of the consumer's mappings, which the code copies and does not look at.
use text.Mathlib.Text.{◌==◌ as str_eq}
use datasource_kit.Prelude.{
  ◌≡◌, refl, Bool, true, false, Option, none, some, String, [], ◌∷◌, arith, if◌then◌else◌,
}
use datasource_kit.Prelude.Dict.{Dict, lookup}
use datasource_kit.Effect.{validation_error, Result, ok, raised}

-- A JSON value: a text, an object, or any other, which has a truth; None is `other false`.
pub data Raw (V : Type 0) : Type 0 where
  str : String → Raw V
  mapping : Dict V → Raw V
  other : Bool → Raw V

pub record DiscoveredItem (V : Type 0) : Type 0 where
  pub source_id : String
  pub status : String
  pub url : Option String
  pub metadata : Dict V

pub record Evidence (V : Type 0) : Type 0 where
  pub run_id : String
  pub captured_at : String
  pub payload : Dict V

module _ {V : Type 0} where
  abbrev or_none : Option (Raw V) → Raw V
  or_none none = other false
  or_none (some v) = v

  -- `raw.get(key)`
  abbrev pub get : String → Dict (Raw V) → Raw V
  get key raw = or_none (lookup key raw)

  -- `value or {}`
  unfoldable pub or_empty : Raw V → Raw V
  or_empty (str s) = if str_eq s "" then mapping [] else str s
  or_empty (mapping m) = mapping m
  or_empty (other true) = other true
  or_empty (other false) = mapping []

  -- `url if isinstance(url, str) else None`
  unfoldable pub text_or_none : Raw V → Option String
  text_or_none (str s) = some s
  text_or_none _ = none

  -- `dict(metadata) if isinstance(metadata, Mapping) else {}`
  unfoldable pub mapping_or_empty : Raw V → Dict V
  mapping_or_empty (mapping m) = m
  mapping_or_empty _ = []

  -- the optional last key of `as_dict`
  abbrev url_entry : Option String → Dict (Raw V)
  url_entry none = []
  url_entry (some u) = ("url", str u) ∷ []

  -- `DiscoveredItem.as_dict`
  unfoldable pub item_as_dict : DiscoveredItem V → Dict (Raw V)
  item_as_dict i =
      ("source_id", str i.source_id)
      ∷ ("status", str i.status)
      ∷ ("metadata", mapping i.metadata)
      ∷ url_entry i.url

  -- `Evidence.capture`; the clock gives the timestamp
  unfoldable pub capture : String → String → Dict V → Evidence V
  capture stamp run_id payload = record { run_id = run_id; captured_at = stamp; payload = payload }

  -- `Evidence.as_dict`
  unfoldable pub evidence_as_dict : Evidence V → Dict (Raw V)
  evidence_as_dict e =
      ("run_id", str e.run_id)
      ∷ ("captured_at", str e.captured_at)
      ∷ ("payload", mapping e.payload)
      ∷ []

  -- `not value.strip()`
  module _ (is_blank : String → Bool) where
    -- the two tests of `DiscoveredItem.from_json`
    unfoldable pub item_of : Raw V → Raw V → Raw V → Raw V → Result (DiscoveredItem V)
    item_of (str source_id) (str status) url metadata =
        if is_blank source_id
        then raised validation_error
        else if str_eq status ""
        then raised validation_error
        else ok (record {
          source_id = source_id;
          status = status;
          url = text_or_none url;
          metadata = mapping_or_empty metadata;
        })
    item_of _ _ url metadata = raised validation_error

    -- `DiscoveredItem.from_json`
    unfoldable pub item_from_json : Dict (Raw V) → Result (DiscoveredItem V)
    item_from_json raw =
        item_of (get "source_id" raw) (get "status" raw) (get "url" raw)
          (or_empty (get "metadata" raw))

    -- the three tests of `Evidence.from_json`
    unfoldable pub evidence_of : Raw V → Raw V → Raw V → Result (Evidence V)
    evidence_of (str run_id) (str captured_at) (mapping payload) =
        if is_blank run_id
        then raised validation_error
        else if is_blank captured_at
        then raised validation_error
        else ok (record { run_id = run_id; captured_at = captured_at; payload = payload })
    evidence_of _ _ _ = raised validation_error

    -- `Evidence.from_json`
    unfoldable pub evidence_from_json : Dict (Raw V) → Result (Evidence V)
    evidence_from_json raw =
        evidence_of (get "run_id" raw) (get "captured_at" raw) (or_empty (get "payload" raw))

    -- what an item that was accepted passes again
    record Accepted (i : DiscoveredItem V) : Type 0 where
      identified : is_blank i.source_id ≡ false
      with_status : str_eq i.status "" ≡ false

    item_of-Accepted :
        (s t u m : Raw V) (i : DiscoveredItem V) → item_of s t u m ≡ ok i → Accepted i
    unfolding item_of
    item_of-Accepted (str s) (str t) u m i e = ground arith
    item_of-Accepted (str s) (mapping t) u m i e = cc
    item_of-Accepted (str s) (other t) u m i e = cc
    item_of-Accepted (mapping s) t u m i e = cc
    item_of-Accepted (other s) t u m i e = cc

    url_again :
        (s t m : Raw V) (u : Option String)
        → text_or_none
            (get "url" (("source_id", s) ∷ ("status", t) ∷ ("metadata", m) ∷ url_entry u))
          ≡ u
    unfolding text_or_none lookup
    url_again s t m none = refl
    url_again s t m (some u) = refl

    again : (i : DiscoveredItem V) → Accepted i → item_from_json (item_as_dict i) ≡ ok i
    unfolding item_from_json item_as_dict item_of lookup or_empty mapping_or_empty
    again i k =
        let u = url_again (str i.source_id) (str i.status) (mapping i.metadata) i.url in
        rw (k.identified, k.with_status, u) refl

    record Captured (e : Evidence V) : Type 0 where
      named : is_blank e.run_id ≡ false
      stamped : is_blank e.captured_at ≡ false

    evidence_of-Captured : (r c p : Raw V) (e : Evidence V) → evidence_of r c p ≡ ok e → Captured e
    unfolding evidence_of
    evidence_of-Captured (str r) (str c) (mapping p) e x = ground arith
    evidence_of-Captured (str r) (str c) (str p) e x = cc
    evidence_of-Captured (str r) (str c) (other p) e x = cc
    evidence_of-Captured (str r) (mapping c) p e x = cc
    evidence_of-Captured (str r) (other c) p e x = cc
    evidence_of-Captured (mapping r) c p e x = cc
    evidence_of-Captured (other r) c p e x = cc

    evidence_again : (e : Evidence V) → Captured e → evidence_from_json (evidence_as_dict e) ≡ ok e
    unfolding evidence_from_json evidence_as_dict evidence_of lookup or_empty
    evidence_again e k = rw (k.named, k.stamped) refl

    -- An item that was read from JSON is read back from its own JSON form.
    pub from_json-as_dict :
        (raw : Dict (Raw V)) (i : DiscoveredItem V)
        → item_from_json raw ≡ ok i
        → item_from_json (item_as_dict i) ≡ ok i
    unfolding item_from_json
    from_json-as_dict raw i e = again i (
        item_of-Accepted (get "source_id" raw) (get "status" raw) (get "url" raw)
          (or_empty (get "metadata" raw)) i e)

    -- Evidence that was read from JSON is read back from its own JSON form.
    pub evidence_from_json-as_dict :
        (raw : Dict (Raw V)) (v : Evidence V)
        → evidence_from_json raw ≡ ok v
        → evidence_from_json (evidence_as_dict v) ≡ ok v
    unfolding evidence_from_json
    evidence_from_json-as_dict raw v e = evidence_again v (
        evidence_of-Captured (get "run_id" raw) (get "captured_at" raw)
          (or_empty (get "payload" raw)) v e)
