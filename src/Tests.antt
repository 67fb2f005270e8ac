-- ===== src/Tests.antt =====
-- The theorems at concrete inputs.
pub mod Aio
pub mod AsyncCaches
pub mod Clients
pub mod Counters
use pylyskom.Base
use pylyskom.Datatypes
use pylyskom.Base.{
  Bool-cases, sym, ◌∙◌, ◌⊎◌, ℕ, ◌+◌, ◌<◌, ◌≡◌, refl, Bytes, List, [], ◌∷◌, ◌++◌, map, take, drop,
  ap, true, false, ◌==◌, not, ◌&&◌, ltb, if◌then◌else◌, Option, none, some, ◌↔◌, inl, inr,
}
use pylyskom.Result.{ok, raise, bad_request_id, receive_error, unspecified}
use pylyskom.Errors.{
  not_member, no_such_local_text, error_dict, documented_no, error_dict-documented,
}
use pylyskom.Dict
use pylyskom.Dict.{Dict}
use pylyskom.Protocol
use pylyskom.Protocol.{decimal}
use pylyskom.Protocol.RoundTrip.{read_int-decimal}
use pylyskom.Protocol.Stable.{IsStable}
use pylyskom.Datatypes.Basic.{
  parse_int, parse_string, string_to_string, parse_array, array_to_string, int_to_string,
  parse_bitstring, bitstring_to_string,
}
use pylyskom.Datatypes.Basic.RoundTrip.{
  parse_string-to_string, parse_array-to_string, parse_bitstring-to_string, parse_int-decimal,
}
use pylyskom.Datatypes.Time.{Time, parse_time, time_to_string, parse_time-to_string}
use pylyskom.Datatypes.MiscInfo.{mir_to, mi_comm_to, parse_cooked_misc_info, misc_info_to_string}
use pylyskom.Datatypes.MiscInfo.RoundTrip.{outgoing, parse_cooked_misc_info-to_string}
use pylyskom.Datatypes.Membership.{
  ReadRange, parse_read_range, read_range_to_string, parse_read_ranges-to_string,
}
use pylyskom.Datatypes.Server.{
  InfoOld, parse_info_old, info_old_to_string, parse_info_old-to_string,
}
use pylyskom.AsyncMessages.{
  AsyncMessage, async_dict, async_leave_conf, async_new_recipient, parse_async_leave_conf,
}
use pylyskom.AsyncMessages.Dispatch.{IsEntry, async_dict-IsEntry}
use pylyskom.Requests.Request.{Request, request_to_string, join_args}
use pylyskom.Requests.Responses.{int, empty, reply, response_dict}
use pylyskom.Requests.Serialize.{read_head, read_head-request_to_string}
use pylyskom.Buffer.{ReceiveBuffer, IsValid, Socket, receive_string, aio_receive_string, current}
use pylyskom.Buffer.Refines.{
  HandsOut, stream, view, receive_string-HandsOut, aio_receive_string-refines,
}
use pylyskom.Connection
use pylyskom.Connection.{
  Connection, ok_reply, error_reply, async_msg, append, new_connection, send_request,
  parse_response, read_response, skip_newline,
}
use pylyskom.Connection.Chunks.{joined, Delivers, read_response-chunks}
use pylyskom.Connection.Requests
use pylyskom.Connection.Requests.{
  Reachable, opened, sent, received, Reachable-IsValid, send_request-IsValid,
  new_connection-IsValid,
}
use pylyskom.Connection.Wire.{
  at, field, error_line, parse_response-ok, parse_response-error, parse_response-unknown,
}
use pylyskom.Connection.Blocking.{read_payload, send_blocking}
use pylyskom.Connection.Agreement.{
  seen, payload, read_payload-read_response, send_blocking-send_request,
}
use pylyskom.Connection.Requests.{tried}
use pylyskom.Connection.{try_parse_response}
use pylyskom.Client.{new_client, is_queued, call_handler, wait_and_dequeue}
use pylyskom.Client.Queues.{returned, enqueue_all, messages, outcome, IsQuiet, wait_and_dequeue-own}
use pylyskom.Cache.{Caches, registrations, register, handle_async_message, new_cache}
use pylyskom.Cache.Invalidation.{
  Forgets, initial_handlers, forgotten_conferences, forgotten_uconferences, forgotten_textstats,
  handle_async_message-Forgets,
}
use pylyskom.Memberships.{get_cached, update_cached, forget_conference}
use pylyskom.Memberships.Positions.{HasNoTwins, get_cached-update_cached, forget_conference-keeps}
use pylyskom.Datatypes.Membership.{Membership11}
use pylyskom.Utils.Hollerith.{parse_hollerith_string, parse_hollerith_string-parse_string}
use pylyskom.Utils.UserArea.{Entry, decode_user_area, encode_user_area, returns, sort_entries}
use pylyskom.Utils.UserArea.RoundTrip.{to_blocks, decode_user_area-encode_user_area}
use pylyskom.Base.{false, All}
use pylyskom.Cache.{Cache, getitem, invalidate}
use pylyskom.Cache.Lookup.{getitem-getitem}
use pylyskom.Result.{Result, type_error}
use pylyskom.Utils.Ranges.{
  in_gaps, is_read, read_ranges_to_gaps_and_last, read_ranges_to_gaps_and_last-complement,
}

-- A request without arguments: who-am-i.
abbrev who_am_i : Request
who_am_i = record { call_no = 56; serialized_args = [] }

-- A connection where who-am-i waits under 1.
abbrev waiting : Connection
waiting = record { ref_no = 1; outstanding_requests = (1, 56) ∷ []; buffer = []; written = [] }

-- "=1 42\n" in three chunks, and the beginning of another line.
abbrev chunks : List Bytes
chunks = (b'=' ∷ b'1' ∷ []) ∷ (b' ' ∷ b'4' ∷ []) ∷ (b'2' ∷ 10 ∷ b':' ∷ []) ∷ []

answer-read : read_response chunks waiting ≡ (
  ok (ok_reply 1 (int 42), b'4' ∷ b'2' ∷ []),
  record { ref_no = 1; outstanding_requests = []; buffer = b':' ∷ []; written = [] },
  [],
)
unfolding read_response Connection.read_more Connection.try_parse_response Connection.retry_later
    parse_response Connection.on_buffer Protocol.read_first_non_ws append Connection.parse_kind
    Connection.parse_ok_reply Protocol.read_int Protocol.read_int_and_next Protocol.read_digits
    Connection.outstanding_call Dict.get Dict.remove Connection.taking Connection.with_taken
    Connection.taken Connection.forget Connection.parse_entry response_dict reply parse_int
    skip_newline
answer-read = refl

chunks_example :
    Delivers
      (append waiting (joined chunks))
      (parse_response (append waiting (joined chunks)))
      (read_response chunks waiting)
chunks_example = read_response-chunks chunks waiting (tt, (tt, (tt, tt)))

-- who-am-i was sent, and "=" has arrived and been tried.
abbrev asked : Connection
asked = append (send_request who_am_i new_connection).1 (b'=' ∷ [])

reachable_example : Requests.IsValid (try_parse_response asked).1
reachable_example = Reachable-IsValid (try_parse_response asked).1 (
    tried asked (
      received (send_request who_am_i new_connection).1 (b'=' ∷ [])
        (sent new_connection who_am_i opened)))

send_request_example :
    ((send_request who_am_i new_connection).0 ≡ ok (new_connection.ref_no + 1))
    × Requests.IsValid (send_request who_am_i new_connection).1
    × ((send_request who_am_i new_connection).1.written
        ≡ new_connection.written
          ++ (decimal (new_connection.ref_no + 1) ++ b' ' ∷ request_to_string who_am_i))
    × (Dict.get new_connection.outstanding_requests (new_connection.ref_no + 1) ≡ none)
    × ((k : ℕ)
        → Dict.get (send_request who_am_i new_connection).1.outstanding_requests k ≡ (
            if new_connection.ref_no + 1 == k
            then some who_am_i.call_no
            else Dict.get new_connection.outstanding_requests k))
send_request_example = send_request-IsValid who_am_i new_connection new_connection-IsValid

int_reader : Dict.get response_dict 56 ≡ some (reply int parse_int)
unfolding response_dict Dict.get
int_reader = refl

int_read : reply int parse_int (b'7' ∷ 10 ∷ b'x' ∷ []) ≡ (ok (int 7), b'x' ∷ [])
unfolding reply parse_int Protocol.read_int Protocol.read_int_and_next Protocol.read_first_non_ws
    Protocol.read_digits
int_read = refl

one_waits : Dict.get waiting.outstanding_requests 1 ≡ some 56
unfolding Dict.get
one_waits = refl

two_unknown : Dict.get waiting.outstanding_requests 2 ≡ none
unfolding Dict.get
two_unknown = refl

ok_example : parse_response (at waiting (b'=' ∷ field 1 b' ' (b'7' ∷ 10 ∷ b'x' ∷ []))) ≡ (
  ok (ok_reply 1 (int 7), skip_newline (b'7' ∷ 10 ∷ [])),
  record (at waiting (b'x' ∷ [])) {
    outstanding_requests = Dict.remove waiting.outstanding_requests 1;
  },
)
ok_example =
    parse_response-ok waiting (b'x' ∷ []) 1 56 b' ' (reply int parse_int) (b'7' ∷ 10 ∷ []) (int 7)
      refl one_waits int_reader int_read

error_example :
    parse_response (at waiting (b'%' ∷ field 1 b' ' (error_line not_member 6 (b'x' ∷ [])))) ≡ (
      ok (error_reply 1 not_member 6, decimal 13 ++ b' ' ∷ decimal 6),
      record (at waiting (b'x' ∷ [])) {
        outstanding_requests = Dict.remove waiting.outstanding_requests 1;
      },
    )
error_example = parse_response-error waiting (b'x' ∷ []) 1 56 b' ' not_member 6 refl one_waits

unknown_example :
    (parse_response (at waiting (b'=' ∷ field 2 b' ' (b'7' ∷ 10 ∷ [])))
      ≡ (raise (bad_request_id 2), at waiting (b'7' ∷ 10 ∷ [])))
    × (parse_response (at waiting (b'%' ∷ field 2 b' ' (b'7' ∷ 10 ∷ [])))
        ≡ (raise (bad_request_id 2), at waiting (b'7' ∷ 10 ∷ [])))
unknown_example = parse_response-unknown waiting (b'7' ∷ 10 ∷ []) 2 b' ' refl two_unknown

-- Another request's answer, an asynchronous message, and an error for the request.
abbrev before : List Connection.Payload
before = ok_reply 7 empty ∷ async_msg (async_leave_conf 4) ∷ []

nothing_queued : is_queued 3 new_client ≡ false
unfolding is_queued new_client Dict.has
nothing_queued = refl

-- A handler that raises on a message about conference 9.
abbrev picky : AsyncMessage → Result (Unit {0})
picky (async_leave_conf n) = if n == 9 then raise unspecified else ok tt
picky _ = ok tt

before-IsQuiet : All (IsQuiet picky) before
unfolding call_handler
before-IsQuiet = (refl, (refl, tt))

own_example :
    (wait_and_dequeue picky receive_error 3
        (returned before ++ ok (error_reply 3 not_member 4) ∷ [])
        new_client
      ≡ (outcome (error_reply 3 not_member 4), enqueue_all before new_client, []))
    × ((enqueue_all before new_client).handled ≡ new_client.handled ++ messages before)
own_example =
    wait_and_dequeue-own picky receive_error 3 before [] new_client nothing_queued
      (refl, (refl, tt)) before-IsQuiet (error_reply 3 not_member 4) refl

abbrev no_caches : Caches
no_caches = record {
  uconferences = new_cache;
  conferences = new_cache;
  persons = new_cache;
  textstats = new_cache;
}

invalidation_example :
    (register registrations [] ≡ ok initial_handlers)
    × ((handle_async_message initial_handlers (async_new_recipient 5 7 0) no_caches).0 ≡ ok tt)
    × Forgets
        (forgotten_conferences (async_new_recipient 5 7 0))
        no_caches.conferences
        (handle_async_message initial_handlers (async_new_recipient 5 7 0) no_caches).1.conferences
    × Forgets
        (forgotten_uconferences (async_new_recipient 5 7 0))
        no_caches.uconferences
        (handle_async_message initial_handlers (async_new_recipient 5 7 0) no_caches).1.uconferences
    × Forgets
        (forgotten_textstats (async_new_recipient 5 7 0))
        no_caches.textstats
        (handle_async_message initial_handlers (async_new_recipient 5 7 0) no_caches).1.textstats
    × ((handle_async_message initial_handlers (async_new_recipient 5 7 0) no_caches).1.persons
        ≡ no_caches.persons)
invalidation_example = handle_async_message-Forgets (async_new_recipient 5 7 0) no_caches tt

take-drop : (n : ℕ) (s : Bytes) → s ≡ take n s ++ drop n s
take-drop Base.zero s = refl
take-drop (Base.suc n) [] = refl
take-drop (Base.suc n) (x ∷ s) = ap (λ t. x ∷ t) (take-drop n s)

take-some : (n : ℕ) (s : Bytes) → 0 < n → take n s ≡ [] → s ≡ []
take-some Base.zero s h e = absurd (omega Base.arith)
take-some (Base.suc n) [] h e = refl
take-some (Base.suc n) (x ∷ s) h e = absurd cc

-- A peer that has sent all of its bytes.
abbrev sent_all : Socket
sent_all = record {
  State = Bytes;
  recv = λ n s. (take n s, drop n s);
  pending = λ s. s;
  recv_next = take-drop;
  recv_end = take-some;
}

-- Three bytes in the buffer, of which one was handed out.
abbrev some_buffer : ReceiveBuffer
some_buffer = record { rb = 1 ∷ 2 ∷ 3 ∷ []; rb_len = 3; rb_pos = 1 }

some_buffer-IsValid : IsValid some_buffer
some_buffer-IsValid = record { counted = refl; within = omega Base.arith }

socket_example :
    HandsOut sent_all 3
      (stream sent_all some_buffer (4 ∷ 5 ∷ []))
      (receive_string sent_all 3 some_buffer (4 ∷ 5 ∷ []))
socket_example = receive_string-HandsOut sent_all 3 some_buffer (4 ∷ 5 ∷ []) some_buffer-IsValid

aio_example :
    (view (aio_receive_string 2 some_buffer) ≡ Protocol.receive_string 2 (current some_buffer))
    × IsValid (aio_receive_string 2 some_buffer).1
aio_example = aio_receive_string-refines 2 some_buffer some_buffer-IsValid

misc_info_example :
    (bytes : Bytes) × (misc_info_to_string (outgoing ((mi_comm_to, 9) ∷ []) ((mir_to, 6) ∷ []))
      ≡ ok bytes)
    × (parse_cooked_misc_info (bytes ++ 10 ∷ [])
        ≡ (ok (outgoing ((mi_comm_to, 9) ∷ []) ((mir_to, 6) ∷ [])), 10 ∷ []))
misc_info_example =
    parse_cooked_misc_info-to_string ((mi_comm_to, 9) ∷ []) ((mir_to, 6) ∷ []) (10 ∷ []) (refl, tt)
      (refl, tt)

int-SkipsSpace : (s : Bytes) → parse_int (b' ' ∷ s) ≡ parse_int s
unfolding parse_int Protocol.read_int Protocol.read_int_and_next Protocol.read_first_non_ws
int-SkipsSpace s = refl

array_example :
    parse_array parse_int (array_to_string decimal (4 ∷ 12 ∷ []) ++ b'x' ∷ [])
    ≡ (ok (4 ∷ 12 ∷ []), b'x' ∷ [])
array_example =
    parse_array-to_string parse_int decimal int-SkipsSpace (4 ∷ 12 ∷ []) (b'x' ∷ [])
      ((λ rest. inl (parse_int-decimal 4 rest)), ((λ rest. inl (parse_int-decimal 12 rest)), tt))

bits_are_bits : Datatypes.Basic.all_bits (1 ∷ 0 ∷ []) ≡ true
unfolding Datatypes.Basic.all_bits
bits_are_bits = refl

bitstring_example :
    (bytes : Bytes) × (bitstring_to_string 2 (1 ∷ 0 ∷ []) ≡ ok bytes)
    × (parse_bitstring 2 (bytes ++ b' ' ∷ []) ≡ (ok (1 ∷ 0 ∷ []), []))
bitstring_example = parse_bitstring-to_string (1 ∷ 0 ∷ []) b' ' [] (omega Base.arith) bits_are_bits

int_example : Protocol.read_int (decimal 1048 ++ b' ' ∷ b'7' ∷ []) ≡ (ok 1048, b'7' ∷ [])
int_example = read_int-decimal 1048 b' ' (b'7' ∷ []) refl

abbrev noon : Time
noon = record {
  seconds = 0;
  minutes = 30;
  hours = 12;
  day = 5;
  month = 10;
  year = 120;
  day_of_week = 4;
  day_of_year = 309;
  is_dst = 0;
}

abbrev ranges : List ReadRange
ranges = record { first_read = 2; last_read = 4 } ∷ record { first_read = 7; last_read = 7 } ∷ []

abbrev some_info : InfoOld
some_info = record {
  version = 20000;
  conf_pres_conf = 1;
  pers_pres_conf = 2;
  motd_conf = 3;
  kom_news_conf = 4;
  motd_of_lyskom = 1080;
}

leave_conf_found : Dict.get async_dict 8 ≡ some parse_async_leave_conf
unfolding Dict.get async_dict
leave_conf_found = refl

leave_conf_example : IsEntry 8 parse_async_leave_conf
leave_conf_example = async_dict-IsEntry 8 leave_conf_found

head_example :
    read_head (decimal 12 ++ b' ' ∷ request_to_string who_am_i)
    ≡ (ok (12, 56), drop 1 (join_args who_am_i.serialized_args ++ 10 ∷ []))
head_example = read_head-request_to_string 12 who_am_i

error_dict_example :
    (Dict.get error_dict 16 ≡ some no_such_local_text) ↔ (documented_no no_such_local_text ≡ 16)
error_dict_example = error_dict-documented 16 no_such_local_text

gaps_example :
    in_gaps 5 (read_ranges_to_gaps_and_last ranges).0
    ≡ (not (is_read 5 ranges) && ltb 5 (read_ranges_to_gaps_and_last ranges).1)
gaps_example =
    read_ranges_to_gaps_and_last-complement 5 ranges
      (omega Base.arith, omega Base.arith, (omega Base.arith, omega Base.arith, tt))
      (omega Base.arith)

agreement_example :
    ((read_payload (append waiting (joined chunks))).0
      ≡ seen payload (read_response chunks waiting).0)
    × (((read_payload (append waiting (joined chunks))).0 ≡ raise receive_error)
        ⊎ ((read_payload (append waiting (joined chunks))).1
            ≡ append (read_response chunks waiting).1 (joined (read_response chunks waiting).2)))
agreement_example = read_payload-read_response chunks waiting (tt, (tt, (tt, tt)))

abbrev in_conference : ℕ → ℕ → Membership11
in_conference position conf_no = record {
  position = position;
  last_time_read = noon;
  conference = conf_no;
  priority = 100;
  read_ranges = ranges;
  added_by = 6;
  added_at = noon;
  type = [];
}

abbrev fetched : List Membership11
fetched = in_conference 3 11 ∷ in_conference 4 12 ∷ []

cached_example : get_cached (update_cached fetched []) 3 2 ≡ some fetched
cached_example = get_cached-update_cached fetched [] 3 (refl, (refl, tt))

abbrev by_position : Dict Membership11
by_position = (3, in_conference 3 11) ∷ []

only_three : (p : ℕ) (m : Membership11) → Dict.get by_position p ≡ some m → p ≡ 3
unfolding Dict.get
only_three p m e = elim (Bool-cases (3 == p)) [
  | inl same ↦ ground Base.arith
  | inr other ↦ let x : none ≡ some m = (rw other at e) in absurd cc
]

by_position-HasNoTwins : HasNoTwins by_position
by_position-HasNoTwins = record { at = λ p q m n e f _. only_three p m e ∙ sym (only_three q n f) }

keeps_example :
    (Dict.get (forget_conference 12 by_position) 3 ≡ some (in_conference 3 11))
    ↔ (Dict.get by_position 3 ≡ some (in_conference 3 11))
      × (((in_conference 3 11).conference == 12) ≡ false)
keeps_example = forget_conference-keeps 12 by_position 3 (in_conference 3 11) by_position-HasNoTwins

taken_example :
    parse_hollerith_string (string_to_string (b'h' ∷ []) ++ 10 ∷ [])
    ≡ some (ok (some (b'h' ∷ []), 10 ∷ []))
taken_example =
    parse_hollerith_string-parse_string (string_to_string (b'h' ∷ []) ++ 10 ∷ []) (b'h' ∷ [])
      (10 ∷ []) (parse_string-to_string (b'h' ∷ []) (10 ∷ []))

abbrev blocks : List Entry
blocks = (b'k' ∷ b'b' ∷ [], b'1' ∷ []) ∷ (b'a' ∷ [], []) ∷ []

names_differ : Connection.bytes_eq (b'k' ∷ b'b' ∷ []) (b'a' ∷ []) ≡ false
unfolding Connection.bytes_eq
names_differ = refl

user_area_example :
    decode_user_area (encode_user_area blocks) ≡ returns (to_blocks (sort_entries blocks))
user_area_example =
    decode_user_area-encode_user_area blocks (tt, (tt, tt)) ((names_differ, tt), (tt, tt))

-- A server that answers twice the number, and one that has it no more.
abbrev answering : ℕ → Result ℕ
answering k = ok (k + k)

abbrev refusing : ℕ → Result ℕ
refusing k = raise type_error

abbrev no_numbers : Cache ℕ
no_numbers = new_cache

answered_once : (getitem answering 4 no_numbers).0 ≡ ok 8
unfolding getitem Dict.get new_cache
answered_once = refl

lookup_example :
    ((getitem refusing 4 (getitem answering 4 no_numbers).1).0 ≡ ok 8)
    × ((getitem refusing 4 (invalidate 4 (getitem answering 4 no_numbers).1)).0 ≡ refusing 4)
lookup_example = getitem-getitem answering refusing 4 no_numbers 8 answered_once
