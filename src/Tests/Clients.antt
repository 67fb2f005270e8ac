-- ===== src/Tests/Clients.antt =====
-- The theorems on the caching client and the session at concrete inputs.
use pylyskom.Base.{
  ℕ, ◌||◌, ◌+◌, ◌≤◌, ◌<◌, ◌≡◌, refl, inl, inr, List, [], ◌∷◌, Bool, true, false, Bool-cases, some,
  ◌==◌, if◌then◌else◌, contains, arith,
}
use pylyskom.Result.{Result, ok, raise, socket_error, session_not_connected}
use pylyskom.Exec.{Exec, throw, lift}
use pylyskom.Exec.Gives.{Gives}
use pylyskom.AsyncMessages.{async_new_name}
use pylyskom.Datatypes.Conference.{UConference}
use pylyskom.Datatypes.Membership.{Membership11}
use pylyskom.Datatypes.Text.{TextMapping}
use pylyskom.Datatypes.Time.{Time}
use pylyskom.Requests.Request
use pylyskom.Requests.Request.{Request, number, new_request}
use pylyskom.Requests.Responses
use pylyskom.Requests.Responses.{Reply, u_conference, text_mapping}
use pylyskom.Requests.Calls.To88.{req_user_active}
use pylyskom.Caching
use pylyskom.Caching.{
  ClientApi, CachingPersonClient, new_caching_client, open_caching_client, get_uconference,
}
use pylyskom.Caching.Renames.{AnnouncesNames, IsNamed, calls-IsNamed}
use pylyskom.Caching.Always.{Call, gets_uconference, requests, names, calls}
use pylyskom.Caching.Unread.{
  map_texts, but_no_such_text, as_text_mapping, existing, get_unread_texts_from_membership,
}
use pylyskom.Caching.Gaps.{Maps}
use pylyskom.Caching.Complete.{AllUnread, get_unread_texts-AllUnread}
use pylyskom.Session.{KomSession, is_connected, check_connection, new_session}
use pylyskom.Connection.{bytes_eq}
use pylyskom.Utils.Mime
use pylyskom.Utils.Mime.{
  MimeType, Str, Decoding, decoded, mime_type_tuple_to_str, parse_content_type, param, charset,
}
use pylyskom.Session.Compose.{
  body_str, NewText, aux_item, encode_utf8, encode_char, final_type, fulltext_of, text_fulltext,
  recipients_of, comments_of, items_of, reparsed, create_new_text,
}
use pylyskom.Session.Reading.{content_type_of, read_parts}
use pylyskom.Session.Stored.{AreStored, IsAscii}
use pylyskom.Datatypes.AuxItem.{AuxItem}
use pylyskom.Session.RoundTrip.{text_with, in_utf_8, Decodes, ok-same, create_new_text-read_parts}
use pylyskom.Base.{Bytes, none, ap, sym}
use pylyskom.Session.Closing.{Seen, check_connection-Seen}

-- A server that renames conference 5 at the first request but those for a status, says so, and gives
-- no status from then on.
abbrev conf : UConference
conf = record { name = b'k' ∷ []; type = []; highest_local_no = 7; nice = 0 }

abbrev renaming_server : ClientApi Bool
renaming_server = record {
  request = λ r is_new.
      if r.call_no == 78
      then (if is_new then ok (Responses.int 3) else ok (u_conference conf), is_new, [])
      else if r.call_no == 80
      then (ok (Responses.int 3), is_new, [])
      else (ok (Responses.int 3), true, async_new_name 5 (b'k' ∷ []) (b'l' ∷ []) ∷ []);
}

abbrev names_of : Bool → ℕ → Bytes
names_of is_new n = if is_new then (if n == 5 then b'l' ∷ [] else b'k' ∷ []) else b'k' ∷ []

other_name : (c : Bool) (n : ℕ) → ((5 == n) || false) ≡ false → names_of true n ≡ names_of c n
other_name true n silent = refl
other_name false n silent = let apart : (n == 5) ≡ false = ground arith in rw apart refl

old_name :
    (c : Bool) (u : UConference)
    → (if c then ok (Responses.int 3) else ok (u_conference conf)) ≡ ok (u_conference u)
    → (n : ℕ) → names_of c n ≡ u.name
old_name true u e n = absurd cc
old_name false u e n = cc

renaming-AnnouncesNames : AnnouncesNames renaming_server names_of
renaming-AnnouncesNames = record {
  numbers = λ r c. elim (Bool-cases (r.call_no == 78)) [
    | inl asks ↦ rw asks tt
    | inr other ↦ elim (Bool-cases (r.call_no == 80)) [
      | inl accepts ↦ rw (other, accepts) tt
      | inr others ↦ rw (other, others) (tt, tt)
    ]
  ];
  announces = λ r c n. elim (Bool-cases (r.call_no == 78)) [
    | inl asks ↦ rw asks (λ silent. refl)
    | inr other ↦ elim (Bool-cases (r.call_no == 80)) [
      | inl accepts ↦ rw (other, accepts) (λ silent. refl)
      | inr others ↦ rw (other, others) (other_name c n)
    ]
  ];
  answers = λ n r c u made. elim (Bool-cases (r.call_no == 78)) [
    | inl asks ↦ rw asks (λ e. old_name c u e n)
    | inr other ↦ elim (Bool-cases (r.call_no == 80)) [
      | inl accepts ↦ rw (other, accepts) (λ e. absurd cc)
      | inr others ↦ rw (other, others) (λ e. absurd cc)
    ]
  ];
}

-- Conferences 5 and 6 are looked up, and 5 has another name behind the request that follows.
abbrev some_calls : List Call
some_calls =
    gets_uconference 5 ∷ gets_uconference 6 ∷ requests req_user_active [] [] ∷ names 5 true ∷ []

calls_example : IsNamed names_of 6 (
    get_uconference renaming_server 6
      (calls renaming_server some_calls (open_caching_client renaming_server false).1))
calls_example = calls-IsNamed renaming_server names_of renaming-AnnouncesNames false some_calls 6

-- A conference with three texts, 1 to 3, and a server that maps them all at once.
abbrev three : TextMapping
three = record {
  range_begin = 1;
  range_end = 4;
  later_texts_exists = 0;
  block_type = 1;
  dict = [];
  list = (1, 11) ∷ (2, 12) ∷ (3, 13) ∷ [];
}

abbrev text_server : ClientApi (Unit {0})
text_server = record { request = λ r c. (ok (text_mapping three), c, []) }

abbrev Texts : ℕ → ℕ → Type 0
Texts l g = (1 ≤ l) × (l ≤ 3) × (g ≡ l + 10)

three-contained : (l g : ℕ) → Texts l g → contains (existing three.list) g ≡ true
unfolding existing
three-contained l g (a, b, c) = ground (arith, a, b, c)

three-Maps : (first n : ℕ) → 0 < n → Gives (Maps Texts 4 first n) (map_texts text_server 9 first n)
unfolding map_texts but_no_such_text as_text_mapping Caching.ask Caching.request Caching.send
    Caching.answered Caching.handle_messages new_request Request.serialize_args
    Request.serialize_arg Request.keyword_or_default Request.keyword
three-Maps first n h = record {
  at = λ s. (
    (λ l g t a b. three-contained l g t),
    (λ e l g (a, b, c). omega (arith, b)),
    λ later. absurd (later refl),
  );
}

-- The second of the three was read.
abbrev epoch : Time
epoch = record {
  seconds = 0;
  minutes = 0;
  hours = 0;
  day = 1;
  month = 0;
  year = 70;
  day_of_week = 4;
  day_of_year = 0;
  is_dst = 0;
}

abbrev read_two : Membership11
read_two = record {
  position = 0;
  last_time_read = epoch;
  conference = 9;
  priority = 1;
  read_ranges = record { first_read = 2; last_read = 2 } ∷ [];
  added_by = 5;
  added_at = epoch;
  type = [];
}

unread_example :
    Gives
      (AllUnread Texts read_two.read_ranges)
      (get_unread_texts_from_membership text_server 5 read_two)
unread_example =
    get_unread_texts-AllUnread text_server read_two Texts 4 5 three-Maps
      (omega arith, omega arith, tt) (λ l g (a, b, c). (a, λ z. omega (arith, c, z))) (omega arith)

-- A session whose connection was reset.
abbrev connected : KomSession (Unit {0})
connected = record new_session { client = some (new_caching_client tt) }

abbrev reset_by_peer : Exec (KomSession (Unit {0})) ℕ
reset_by_peer = throw (socket_error 104)

abbrev logged : Exec (KomSession (Unit {0})) ℕ
logged = lift (ok 1)

check_connection_example :
    (is_connected connected ≡ false
      → check_connection (λ c. ok tt) reset_by_peer connected
        ≡ (raise session_not_connected, connected))
    × (is_connected connected ≡ true
        → Seen
            (λ c. ok tt)
            logged
            (reset_by_peer connected)
            (check_connection (λ c. ok tt) reset_by_peer connected))
check_connection_example = check_connection-Seen (λ c. ok tt) reset_by_peer logged connected

-- A text/plain with the subject "hej" and the body "x", made and read back by a parser that knows two
-- types and a codec for ASCII.
abbrev plain : Str
plain = b'p' ∷ b'l' ∷ b'a' ∷ b'i' ∷ b'n' ∷ []

abbrev two_types : Str → Result MimeType
two_types s =
    if bytes_eq s (mime_type_tuple_to_str (in_utf_8 plain []))
    then ok (in_utf_8 plain [])
    else ok (text_with plain [])

abbrev ascii : Str → Bytes → Decoding
ascii encoding s = decoded s

abbrev hej : Str
hej = b'h' ∷ b'e' ∷ b'j' ∷ []

abbrev made_text : NewText
made_text = record {
  fulltext = b'h' ∷ b'e' ∷ b'j' ∷ 10 ∷ b'x' ∷ [];
  recipient_list = [];
  comment_to_list = [];
  items = aux_item 1 (mime_type_tuple_to_str (in_utf_8 plain [])) ∷ [];
}

hej-Decodes : Decodes ascii two_types hej
unfolding encode_utf8 encode_char
hej-Decodes x e = let z : hej ≡ x = ok-same e in ap decoded (sym z)

x-Decodes : Decodes ascii two_types (b'x' ∷ [])
unfolding encode_utf8 encode_char
x-Decodes x e = let z : b'x' ∷ [] ≡ x = ok-same e in ap decoded (sym z)

plain_is_parsed : reparsed two_types plain ≡ ok (text_with plain [])
unfolding reparsed parse_content_type Mime.content_type_of Mime.named Mime.without_param
    mime_type_tuple_to_str Mime.params_to_str bytes_eq
plain_is_parsed = refl

final_is_parsed : two_types (mime_type_tuple_to_str (in_utf_8 plain [])) ≡ ok (in_utf_8 plain [])
unfolding mime_type_tuple_to_str Mime.params_to_str bytes_eq
final_is_parsed = refl

no_charset : param charset [] ≡ none
unfolding param
no_charset = refl

text_is_made :
    create_new_text two_types (some hej) (body_str (b'x' ∷ [])) plain none [] [] ≡ ok made_text
unfolding create_new_text fulltext_of text_fulltext recipients_of comments_of items_of final_type
    encode_utf8 encode_char reparsed parse_content_type Mime.content_type_of Mime.named
    Mime.without_param mime_type_tuple_to_str Mime.params_to_str bytes_eq
text_is_made = refl

-- The aux-item as the server keeps it.
abbrev kept_items : List AuxItem
kept_items =
    record {
      aux_no = 1;
      tag = 1;
      creator = 7;
      created_at = record {
        seconds = 0;
        minutes = 0;
        hours = 0;
        day = 1;
        month = 0;
        year = 120;
        day_of_week = 3;
        day_of_year = 0;
        is_dst = 0;
      };
      flags = [];
      inherit_limit = 0;
      value = mime_type_tuple_to_str (in_utf_8 plain []);
    }
    ∷ []

items_are_kept : AreStored made_text.items kept_items
unfolding aux_item
items_are_kept = (refl, refl, tt)

type-IsAscii : IsAscii (mime_type_tuple_to_str (in_utf_8 plain []))
unfolding mime_type_tuple_to_str Mime.params_to_str
type-IsAscii = ground arith

create_new_text_example :
    read_parts ascii two_types (some made_text.fulltext) (content_type_of kept_items)
    ≡ ok (mime_type_tuple_to_str (text_with plain []), some hej, some (body_str (b'x' ∷ [])))
create_new_text_example =
    create_new_text-read_parts ascii two_types plain [] hej (b'x' ∷ []) plain none [] [] made_text
      kept_items hej-Decodes x-Decodes plain_is_parsed no_charset type-IsAscii final_is_parsed refl
      text_is_made items_are_kept
