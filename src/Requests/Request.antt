-- ===== src/Requests/Request.antt =====
-- requests.py: `Argument` and `Request`. The values that a caller passes are dynamic: `Value` has
-- the ones that the library's own callers use, with the numbers of the
-- characters for a str, and `unspecified` stands for the outcome of others.
use pylyskom.Base.{
  ℕ, ◌+◌, Bytes, List, [], ◌∷◌, ◌++◌, length, ltb, if◌then◌else◌, Bool, false, true, Option, none,
  some,
}
use Prim.Native.String.{String}
use text.Mathlib.Text.{◌==◌}
use pylyskom.Result.{Result, ok, raise, type_error, value_error, unspecified}
use pylyskom.Protocol.{decimal}
use pylyskom.Datatypes.Basic.{string_to_string, int_to_string, array_to_string, bitstring_to_string}
use pylyskom.Datatypes.Time.{Time, time_to_string}
use pylyskom.Datatypes.Flags.{ConfTypeValue, new_bitstring, new_extended_conf_type}
use pylyskom.Datatypes.MiscInfo.{CookedMiscInfo, misc_info_to_string}
use pylyskom.Datatypes.Server.{InfoOld, info_old_to_string}
use pylyskom.Datatypes.AuxItem.{AuxItemInput, aux_item_input_to_string}
use pylyskom.Datatypes.Membership.{ReadRange, read_range_to_string}

-- The classes that stand in ARGS: `int` is Int and the classes below it, `array_int` is ArrayInt32
-- and ArrayLocalTextNo, `flags8` is PersonalFlags and MembershipType, `flags16` is PrivBits.
pub data DataType : Type 0 where
  int string any_conf_type array_aux_item_input array_int array_read_range misc_info : DataType
  info_old flags8 flags16 time : DataType

pub data Value : Type 0 where
  number : ℕ → Value
  bytes : Bytes → Value
  str : List ℕ → Value
  conf_type : ConfTypeValue → Value
  bits : List ℕ → Value
  numbers : List ℕ → Value
  read_ranges : List ReadRange → Value
  aux_items : List AuxItemInput → Value
  cooked : CookedMiscInfo → Value
  info : InfoOld → Value
  moment : Time → Value

pub record Argument : Type 0 where
  pub name : String
  pub data_type : DataType
  pub default : Option ℕ

abbrev pub argument : String → DataType → Argument
argument name t = record { name = name; data_type = t; default = none }

abbrev pub argument_or : String → DataType → ℕ → Argument
argument_or name t d = record { name = name; data_type = t; default = some d }

-- A subclass of Request.
pub record RequestClass : Type 0 where
  pub call_no : ℕ
  pub args : List Argument

infixl 5 ◌>>=◌
abbrev pub ◌>>=◌ : {A B : Type 0} → Result A → (A → Result B) → Result B
ok a >>= f = f a
raise e >>= f = raise e

-- The elements of an array, each sent by a method that may raise.
unfoldable pub serialize_all : {A : Type 0} → (A → Result Bytes) → List A → Result (List Bytes)
serialize_all f [] = ok []
serialize_all f (x ∷ l) = do s ← f x; rest ← serialize_all f l; ok (s ∷ rest)

-- `ReadRange(v)` for each element `v` of an ArrayReadRange: `v` becomes `first_read`, also when it
-- is a ReadRange already, which `%d` then refuses.
unfoldable pub serialize_read_ranges : List ReadRange → Result Bytes
serialize_read_ranges [] = ok (array_to_string read_range_to_string [])
serialize_read_ranges (r ∷ l) = raise type_error

unfoldable pub bitstring_arg : ℕ → Result (List ℕ) → Result Bytes
bitstring_arg n made = do l ← made; bitstring_to_string n l

-- str.encode('latin-1'), on the numbers of the characters.
unfoldable pub encode_latin1 : List ℕ → Result Bytes
encode_latin1 [] = ok []
encode_latin1 (c ∷ s) = do
  rest ← encode_latin1 s
  if ltb c 256 then ok (c ∷ rest) else raise value_error

-- `arg_def.data_type(val).to_string()`. `Time(val)` takes `val` for the seconds, also when it is a
-- Time already, which `%d` then refuses.
unfoldable pub serialize_arg : DataType → Value → Result Bytes
serialize_arg int (number n) = ok (int_to_string n)
serialize_arg string (bytes s) = ok (string_to_string s)
serialize_arg string (str s) = do encoded ← encode_latin1 s; ok (string_to_string encoded)
serialize_arg any_conf_type (conf_type c) = bitstring_arg 8 (new_extended_conf_type c)
serialize_arg array_aux_item_input (aux_items l) = do
  items ← serialize_all aux_item_input_to_string l
  ok (array_to_string (λ s. s) items)
serialize_arg array_int (numbers l) = ok (array_to_string int_to_string l)
serialize_arg array_read_range (read_ranges l) = serialize_read_ranges l
serialize_arg misc_info (cooked m) = misc_info_to_string m
serialize_arg info_old (info i) = ok (info_old_to_string i)
serialize_arg flags8 (bits l) = bitstring_arg 8 (new_bitstring 8 l)
serialize_arg flags16 (bits l) = bitstring_arg 16 (new_bitstring 16 l)
serialize_arg time (number n) = ok (
    time_to_string (record {
      seconds = n;
      minutes = 0;
      hours = 0;
      day = 0;
      month = 0;
      year = 0;
      day_of_week = 0;
      day_of_year = 0;
      is_dst = 0;
    }))
serialize_arg time (moment t) = raise type_error
serialize_arg _ _ = raise unspecified

abbrev pub Kwargs : Type 0
Kwargs = List (String × Value)

-- kwargs.get(name)
unfoldable pub keyword : String → Kwargs → Option Value
keyword name [] = none
keyword name ((k, v) ∷ kwargs) = if k == name then some v else keyword name kwargs

-- The value of an argument that was not given by position.
unfoldable pub keyword_or_default : Argument → Kwargs → Result Value
keyword_or_default a kwargs = elim (keyword a.name kwargs) [
  | some v ↦ ok v
  | none ↦ elim a.default [ none ↦ raise type_error | some d ↦ ok (number d) ]
]

abbrev pub is_given : Argument → Kwargs → Bool
is_given a kwargs = elim (keyword a.name kwargs) [ none ↦ false | some v ↦ true ]

-- The `for` of `Request.__init__`, with the positional arguments that are left.
unfoldable pub serialize_args : List Argument → List Value → Kwargs → Result (List Bytes)
serialize_args [] args kwargs = ok []
serialize_args (a ∷ defs) (v ∷ args) kwargs =
    if is_given a kwargs
    then raise type_error
    else (do s ← serialize_arg a.data_type v; rest ← serialize_args defs args kwargs; ok (s ∷ rest))
serialize_args (a ∷ defs) [] kwargs = do
  v ← keyword_or_default a kwargs
  s ← serialize_arg a.data_type v
  rest ← serialize_args defs [] kwargs
  ok (s ∷ rest)

pub record Request : Type 0 where
  pub call_no : ℕ
  pub serialized_args : List Bytes

-- Request.__init__
unfoldable pub new_request : RequestClass → List Value → Kwargs → Result Request
new_request cls args kwargs =
    if ltb (length cls.args) (length args + length kwargs) then raise type_error else (do
      serialized ← serialize_args cls.args args kwargs
      ok (record { call_no = cls.call_no; serialized_args = serialized }))

-- `b' '.join` of the call number and the arguments, as the join puts a space before each of these.
unfoldable pub join_args : List Bytes → Bytes
join_args [] = []
join_args (s ∷ l) = b' ' ∷ (s ++ join_args l)

-- Request.to_string
unfoldable pub request_to_string : Request → Bytes
request_to_string r = decimal r.call_no ++ (join_args r.serialized_args ++ 10 ∷ [])
