-- ===== src/Datatypes/Text.antt =====
-- datatypes.py: text lists, text mappings and marks.
use pylyskom.Base.{ℕ, ◌+◌, List, [], ◌∷◌, Bool, if◌then◌else◌, ◌==◌}
use pylyskom.Result.{protocol_error}
use pylyskom.Exec.{pure, throw, ◌>>=◌}
use pylyskom.Exec.Stable.{Stable-pure, Stable-throw, Stable-bind, Stable-if}
use pylyskom.Protocol.{Parser}
use pylyskom.Protocol.Stable.{IsStable}
use pylyskom.Datatypes.Basic.{parse_int, parse_array}
use pylyskom.Datatypes.Basic.Stable.{parse_int-Stable, parse_array-Stable}
use pylyskom.Dict
use pylyskom.Dict.{Dict}
use pylyskom.Datatypes.Time.{Time, parse_time, parse_time-Stable}
use pylyskom.Datatypes.AuxItem.{AuxItem, parse_aux_item, parse_aux_item-Stable}
use pylyskom.Datatypes.MiscInfo.{
  CookedMiscInfo, parse_cooked_misc_info, parse_cooked_misc_info-Stable,
}

pub record TextList : Type 0 where
  pub first_local_no : ℕ
  pub texts : List ℕ

unfoldable pub parse_text_list : Parser TextList
parse_text_list = do
  first_local_no ← parse_int
  texts ← parse_array parse_int
  pure (record { first_local_no = first_local_no; texts = texts })

pub parse_text_list-Stable : IsStable parse_text_list
unfolding parse_text_list
parse_text_list-Stable =
    Stable-bind parse_int-Stable
      λ _. Stable-bind (parse_array-Stable parse_int-Stable) λ _. Stable-pure _

pub record TextNumberPair : Type 0 where
  pub local_number : ℕ
  pub global_number : ℕ

unfoldable pub parse_text_number_pair : Parser TextNumberPair
parse_text_number_pair = do
  local_number ← parse_int
  global_number ← parse_int
  pure (record { local_number = local_number; global_number = global_number })

pub parse_text_number_pair-Stable : IsStable parse_text_number_pair
unfolding parse_text_number_pair
parse_text_number_pair-Stable =
    Stable-bind parse_int-Stable λ _. Stable-bind parse_int-Stable λ _. Stable-pure _

pub record Mark : Type 0 where
  pub text_no : ℕ
  pub type : ℕ

unfoldable pub parse_mark : Parser Mark
parse_mark = do
  text_no ← parse_int
  type ← parse_int
  pure (record { text_no = text_no; type = type })

pub parse_mark-Stable : IsStable parse_mark
unfolding parse_mark
parse_mark-Stable =
    Stable-bind parse_int-Stable λ _. Stable-bind parse_int-Stable λ _. Stable-pure _

pub record TextStat : Type 0 where
  pub creation_time : Time
  pub author : ℕ
  pub no_of_lines : ℕ
  pub no_of_chars : ℕ
  pub no_of_marks : ℕ
  pub misc_info : CookedMiscInfo
  pub aux_items : List AuxItem

unfoldable pub parse_text_stat : Bool → Parser TextStat
parse_text_stat old_format = do
  creation_time ← parse_time
  author ← parse_int
  no_of_lines ← parse_int
  no_of_chars ← parse_int
  no_of_marks ← parse_int
  misc_info ← parse_cooked_misc_info
  aux_items ← if old_format then pure [] else parse_array parse_aux_item
  pure (record {
    creation_time = creation_time;
    author = author;
    no_of_lines = no_of_lines;
    no_of_chars = no_of_chars;
    no_of_marks = no_of_marks;
    misc_info = misc_info;
    aux_items = aux_items;
  })

pub parse_text_stat-Stable : (old_format : Bool) → IsStable (parse_text_stat old_format)
unfolding parse_text_stat
parse_text_stat-Stable old_format = Stable-bind parse_time-Stable λ _.
    Stable-bind parse_int-Stable λ _. Stable-bind parse_int-Stable λ _.
      Stable-bind parse_int-Stable λ _. Stable-bind parse_int-Stable λ _.
        Stable-bind parse_cooked_misc_info-Stable λ _.
          Stable-bind
            (Stable-if old_format (Stable-pure _) (parse_array-Stable parse_aux_item-Stable))
            λ _. Stable-pure _

-- The server's answer to LocalToGlobal: `dict` and `list` hold the same pairs.
pub record TextMapping : Type 0 where
  pub range_begin : ℕ
  pub range_end : ℕ
  pub later_texts_exists : ℕ
  pub block_type : ℕ
  pub dict : Dict ℕ
  pub list : List (ℕ × ℕ)

-- The `for` over the sparse list.
unfoldable pub sparse_pairs : List TextNumberPair → List (ℕ × ℕ)
sparse_pairs [] = []
sparse_pairs (tnp ∷ l) = (tnp.local_number, tnp.global_number) ∷ sparse_pairs l

-- The `for` over the dense list, from `local_number` on.
unfoldable pub dense_pairs : ℕ → List ℕ → List (ℕ × ℕ)
dense_pairs local_number [] = []
dense_pairs local_number (global_number ∷ l) =
    (local_number, global_number) ∷ dense_pairs (local_number + 1) l

unfoldable pub put_all : Dict ℕ → List (ℕ × ℕ) → Dict ℕ
put_all d [] = d
put_all d ((k, v) ∷ l) = put_all (Dict.put d k v) l

unfoldable pub parse_pairs : ℕ → Parser (List (ℕ × ℕ))
parse_pairs block_type =
    if block_type == 0
    then (do sparse_list ← parse_array parse_text_number_pair; pure (sparse_pairs sparse_list))
    else if block_type == 1
    then (do
      dense_first ← parse_int
      dense_texts ← parse_array parse_int
      pure (dense_pairs dense_first dense_texts))
    else throw protocol_error

unfoldable pub parse_text_mapping : Parser TextMapping
parse_text_mapping = do
  range_begin ← parse_int
  range_end ← parse_int
  later_texts_exists ← parse_int
  block_type ← parse_int
  pairs ← parse_pairs block_type
  pure (record {
    range_begin = range_begin;
    range_end = range_end;
    later_texts_exists = later_texts_exists;
    block_type = block_type;
    dict = put_all [] pairs;
    list = pairs;
  })

parse_pairs-Stable : (block_type : ℕ) → IsStable (parse_pairs block_type)
unfolding parse_pairs
parse_pairs-Stable block_type =
    Stable-if _ (Stable-bind (parse_array-Stable parse_text_number_pair-Stable) λ _. Stable-pure _)
      (Stable-if _
        (Stable-bind parse_int-Stable
          λ _. Stable-bind (parse_array-Stable parse_int-Stable) λ _. Stable-pure _)
        (Stable-throw _))

pub parse_text_mapping-Stable : IsStable parse_text_mapping
unfolding parse_text_mapping
parse_text_mapping-Stable = Stable-bind parse_int-Stable λ _. Stable-bind parse_int-Stable λ _.
    Stable-bind parse_int-Stable
      λ _. Stable-bind parse_int-Stable λ bt. Stable-bind (parse_pairs-Stable bt) λ _. Stable-pure _
