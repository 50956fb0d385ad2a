-- ===== src/Disks/Selector.antt =====
-- pkg/disks/selector.go: the disk selector document. Parameters: humanize.ParseBytes, the YAML
-- decoder, and glob.Glob.
use actions.Prelude.{
  ℕ, Bool, true, false, not, ◌&&◌, ◌||◌, List, [], ◌∷◌, Option, none, some, Result, ok, err, ◌>>=◌,
  ◌>>◌, guard, or_err, bad_size_condition, bad_size, bad_selector, selector_on_name,
  unknown_disk_type, panic, leb, ltb, ◌==◌, length, drop, any, if◌then◌else◌,
}
use actions.Text.{Text, codes, text_eq, trim_left, trim_space, has_prefix, has_member}
use actions.Disks.{Disk, eligible}

-- SizeMatcher
pub record SizeMatcher : Type 0 where
  pub op : Text
  pub size : ℕ

-- \s of the regular expression: [\t\n\f\r ].
unfoldable pub is_blank : ℕ → Bool
is_blank c = c == 9 || c == 10 || c == 12 || c == 13 || c == 32

-- sizeCondition with one of its alternatives: the operator, and then the rest after the blanks, which
-- is a line of at least one character. The condition is trimmed, so no blanks can be given back.
unfoldable pub split_at_op : Text → Text → Option (Text × Text)
unfolding has_prefix trim_left is_blank
split_at_op op condition =
    let rest = trim_left is_blank (drop (length op) condition) in
    if has_prefix condition op && not (text_eq rest []) && not (any (λ c. c == 10) rest)
    then some (op, rest)
    else none

-- The alternatives in order: the first that matches is taken.
unfoldable pub first_split : List Text → Text → Option (Text × Text)
unfolding split_at_op
first_split [] condition = none
first_split (op ∷ ops) condition = elim (split_at_op op condition) [
  | some parts ↦ some parts
  | none ↦ first_split ops condition
]

abbrev pub operators : List Text
operators = codes ">=" ∷ codes "<=" ∷ codes ">" ∷ codes "<" ∷ codes "==" ∷ [] ∷ []

-- ParseSize
unfoldable pub parse_size : (Text → Option ℕ) → Text → Result SizeMatcher
unfolding first_split
parse_size parse_bytes condition = do
  (op, text) ← or_err (first_split operators (trim_space condition)) bad_size_condition
  size ← or_err (parse_bytes (trim_space text)) bad_size
  ok (record { op = if text_eq op [] then codes "==" else op; size = size })

-- SizeMatcher.Match
unfoldable pub size_match : SizeMatcher → ℕ → Bool
unfolding text_eq
size_match m size =
    if text_eq m.op (codes ">=")
    then leb m.size size
    else if text_eq m.op (codes "<=")
    then leb size m.size
    else if text_eq m.op (codes ">")
    then ltb m.size size
    else if text_eq m.op (codes "<")
    then ltb size m.size
    else size == m.size

-- Selector
pub record Selector : Type 0 where
  pub size : Option SizeMatcher
  pub model : Text
  pub serial : Text
  pub modalias : Text
  pub uuid : Text
  pub wwid : Text
  pub bus_path : Text
  pub kind : Text
  pub raw : Text

-- selectorDocument
pub record SelectorDocument : Type 0 where
  pub size : Text
  pub name : Text
  pub model : Text
  pub serial : Text
  pub modalias : Text
  pub uuid : Text
  pub wwid : Text
  pub kind : Text
  pub bus_path : Text

-- What dec.Decode answers.
pub data Decoded : Type 0 where
  end_of_file : Decoded
  malformed : Decoded
  document : SelectorDocument → Decoded

abbrev pub kinds : List Text
kinds = [] ∷ codes "ssd" ∷ codes "hdd" ∷ codes "nvme" ∷ codes "sd" ∷ []

-- The condition on the size, if there is one.
unfoldable pub selector_size : (Text → Option ℕ) → Text → Result (Option SizeMatcher)
selector_size parse_bytes [] = ok none
selector_size parse_bytes (c ∷ s) = do m ← parse_size parse_bytes (c ∷ s); ok (some m)

-- ParseSelector once the document is decoded.
unfoldable pub from_document : (Text → Option ℕ) → Text → Decoded → Result Selector
unfolding has_member
from_document parse_bytes raw end_of_file = ok (record {
  size = none;
  model = [];
  serial = [];
  modalias = [];
  uuid = [];
  wwid = [];
  bus_path = [];
  kind = [];
  raw = raw;
})
from_document parse_bytes raw malformed = err bad_selector
from_document parse_bytes raw (document d) = do
  guard (text_eq d.name []) selector_on_name
  guard (has_member kinds d.kind) unknown_disk_type
  size ← selector_size parse_bytes d.size
  ok (record {
    size = size;
    model = d.model;
    serial = d.serial;
    modalias = d.modalias;
    uuid = d.uuid;
    wwid = d.wwid;
    bus_path = d.bus_path;
    kind = d.kind;
    raw = raw;
  })

-- ParseSelector
unfoldable pub parse_selector : (Text → Option ℕ) → (Text → Decoded) → Text → Result Selector
parse_selector parse_bytes decode doc = from_document parse_bytes (trim_space doc) (decode doc)

-- DefaultSelectorDocument
abbrev pub default_selector_document : Text
default_selector_document = codes "{ \"size\": \">= 100GB\" }"

-- DefaultSelector
unfoldable pub default_selector : (Text → Option ℕ) → (Text → Decoded) → Result Selector
default_selector parse_bytes decode =
    elim (parse_selector parse_bytes decode default_selector_document) [
      | ok sel ↦ ok sel
      | err e ↦ err panic
    ]

-- Selector.String
unfoldable pub selector_text : Selector → Text
selector_text s = if text_eq s.raw [] then codes "{}" else s.raw

-- The condition on the size of a disk.
unfoldable pub size_fits : Option SizeMatcher → ℕ → Bool
size_fits none size = true
size_fits (some m) size = size_match m size

-- The last switch of Match.
unfoldable pub kind_fits : Text → Disk → Bool
unfolding text_eq
kind_fits kind d =
    if text_eq kind (codes "nvme")
    then text_eq d.transport (codes "nvme")
    else if text_eq kind (codes "sd")
    then text_eq d.transport (codes "mmc")
    else if text_eq kind (codes "hdd")
    then d.rotational
    else if text_eq kind (codes "ssd")
    then not d.rotational
    else true

module _ (glob : Text → Text → Bool) where
  -- The loop over the patterns and the values.
  unfoldable pub fields_fit : List (Text × Text) → Bool
  fields_fit [] = true
  fields_fit ((pattern, value) ∷ fs) =
      if not (text_eq pattern []) && not (glob pattern value) then false else fields_fit fs

  -- Selector.Match
  unfoldable pub matches : Selector → Disk → Bool
  matches s d =
      if not (eligible d)
      then false
      else if not (size_fits s.size d.size)
      then false
      else if not (
          fields_fit (
            (s.model, d.model)
            ∷ (s.serial, d.serial)
            ∷ (s.modalias, d.modalias)
            ∷ (s.uuid, d.uuid)
            ∷ (s.wwid, d.wwid)
            ∷ (s.bus_path, d.bus_path)
            ∷ []))
      then false
      else kind_fits s.kind d
