-- ===== src/Datatypes/AuxItem.antt =====
-- datatypes.py: auxiliary items.
use pylyskom.Base.{ℕ, Bytes, List, [], ◌∷◌, ◌++◌, if◌then◌else◌, ◌==◌, Option, none, some}
use pylyskom.Result.{Result, ok, raise}
use pylyskom.Exec.{pure, ◌>>=◌}
use pylyskom.Exec.Stable.{Stable-pure, Stable-bind}
use pylyskom.Protocol.{Parser, decimal, to_hstring}
use pylyskom.Protocol.Stable.{IsStable}
use pylyskom.Datatypes.Basic.{parse_string, parse_int, bitstring_to_string}
use pylyskom.Datatypes.Basic.Stable.{parse_string-Stable, parse_int-Stable}
use pylyskom.Datatypes.Time.{Time, parse_time, parse_time-Stable}
use pylyskom.Datatypes.Flags.{parse_aux_item_flags, parse_aux_item_flags-Stable}

pub record AuxItem : Type 0 where
  pub aux_no : ℕ
  pub tag : ℕ
  pub creator : ℕ
  pub created_at : Time
  pub flags : List ℕ
  pub inherit_limit : ℕ
  pub value : Bytes

unfoldable pub parse_aux_item : Parser AuxItem
parse_aux_item = do
  aux_no ← parse_int
  tag ← parse_int
  creator ← parse_int
  created_at ← parse_time
  flags ← parse_aux_item_flags
  inherit_limit ← parse_int
  value ← parse_string
  pure (record {
    aux_no = aux_no;
    tag = tag;
    creator = creator;
    created_at = created_at;
    flags = flags;
    inherit_limit = inherit_limit;
    value = value;
  })

pub parse_aux_item-Stable : IsStable parse_aux_item
unfolding parse_aux_item
parse_aux_item-Stable = Stable-bind parse_int-Stable λ _. Stable-bind parse_int-Stable λ _.
    Stable-bind parse_int-Stable λ _. Stable-bind parse_time-Stable λ _.
      Stable-bind parse_aux_item_flags-Stable
        λ _. Stable-bind parse_int-Stable λ _. Stable-bind parse_string-Stable λ _. Stable-pure _

pub record AuxItemInput : Type 0 where
  pub tag : ℕ
  pub flags : List ℕ
  pub inherit_limit : ℕ
  pub value : Bytes

unfoldable pub aux_item_input_to_string : AuxItemInput → Result Bytes
aux_item_input_to_string a = elim (bitstring_to_string 8 a.flags) [
  | ok flags ↦ ok (
      decimal a.tag
      ++ b' ' ∷ (flags ++ b' ' ∷ (decimal a.inherit_limit ++ b' ' ∷ to_hstring a.value)))
  | raise e ↦ raise e
]

unfoldable pub all_aux_items_with_tag : List AuxItem → ℕ → List AuxItem
all_aux_items_with_tag [] tag = []
all_aux_items_with_tag (x ∷ ail) tag =
    let rest = all_aux_items_with_tag ail tag in if x.tag == tag then x ∷ rest else rest

unfoldable pub first_aux_items_with_tag : List AuxItem → ℕ → Option AuxItem
first_aux_items_with_tag ail tag = head? (all_aux_items_with_tag ail tag)
  where
    head? : List AuxItem → Option AuxItem
    head? [] = none
    head? (x ∷ l) = some x
