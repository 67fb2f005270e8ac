-- ===== src/Requests/Serialize.antt =====
-- requests.py: the line that is sent for a request, and the readers of the replies by call number.
use pylyskom.Base.{ℕ, ◌≡◌, refl, Bytes, List, map, [], ◌∷◌, ◌++◌, drop}
use pylyskom.Result.{ok}
use pylyskom.Exec.{pure, ◌>>=◌}
use pylyskom.Dict
use pylyskom.Protocol.{Parser, read_int, decimal}
use pylyskom.Protocol.RoundTrip.{read_int-decimal}
use pylyskom.Requests.Request.{Request, RequestClass, join_args, request_to_string}
use pylyskom.Requests.Calls.{request_classes}
use pylyskom.Requests.Responses.{response_dict}

abbrev with_call_no : ℕ → Parser (ℕ × ℕ)
with_call_no ref_no = do call_no ← read_int; pure (ref_no, call_no)

-- The reference number and the call number of a line.
abbrev pub read_head : Parser (ℕ × ℕ)
read_head = read_int >>= with_call_no

-- The line that is sent for a request, read by the client's own readers: its reference number and
-- its call number come back, and behind them stand the arguments and the newline, each argument
-- with a space before it, the first of these spaces (or, without arguments, the newline) taken.
pub read_head-request_to_string :
    (ref_no : ℕ) (r : Request)
    → read_head (decimal ref_no ++ b' ' ∷ request_to_string r)
      ≡ (ok (ref_no, r.call_no), drop 1 (join_args r.serialized_args ++ 10 ∷ []))
unfolding request_to_string join_args
read_head-request_to_string ref_no r =
    rw (read_int-decimal ref_no b' ' (request_to_string r) refl) (head r.serialized_args)
  where
    head :
        (l : List Bytes)
        → with_call_no ref_no (decimal r.call_no ++ (join_args l ++ 10 ∷ []))
          ≡ (ok (ref_no, r.call_no), drop 1 (join_args l ++ 10 ∷ []))
    head [] = rw (read_int-decimal r.call_no 10 [] refl)
    head (s ∷ l) = rw (read_int-decimal r.call_no b' ' ((s ++ join_args l) ++ 10 ∷ []) refl)

-- The call numbers of the request classes, in order, are the keys of `response_dict` once get-map
-- (34) is left out, which has a reader there but no class: each request has one reader of its reply.
pub request_classes-answered :
    map (λ cls. RequestClass.call_no cls) request_classes ≡ Dict.keys (Dict.remove response_dict 34)
unfolding response_dict Dict.keys Dict.remove request_classes
request_classes-answered = refl
