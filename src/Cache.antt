-- ===== src/Cache.antt =====
-- cachedconnection.py: `Cache`, and the part of `CachingClient` that keeps its caches true: the
-- handlers of asynchronous messages and the table that they are registered in.
pub mod Invalidation
pub mod Lookup
use pylyskom.Base.{ℕ, ◌+◌, List, [], ◌∷◌, ◌++◌, Option, none, some, if◌then◌else◌}
use pylyskom.Result.{Result, ok, raise, type_error, unspecified, unimplemented_async}
use pylyskom.Exec.{Exec, pure, throw, lift, ◌>>=◌, ◌>>◌}
use pylyskom.Dict
use pylyskom.Dict.{Dict}
use pylyskom.AsyncMessages.{
  AsyncMessage, msg_no, async_dict, async_new_name, async_leave_conf, async_deleted_text,
  async_new_text, async_new_recipient, async_sub_recipient, async_new_membership,
}
use pylyskom.Datatypes.MiscInfo.{MiscData, time, number, MiRecipient, MiCommentTo}
use pylyskom.Datatypes.Conference.{Conference, UConference}
use pylyskom.Datatypes.Person.{Person}
use pylyskom.Datatypes.Text.{TextStat}

-- `cached` and `uncached` count the hits and the misses.
pub record Cache (V : Type 0) : Type 0 where
  pub dict : Dict V
  pub cached : ℕ
  pub uncached : ℕ

module _ {V : Type 0} where
  unfoldable pub new_cache : Cache V
  new_cache = record { dict = []; cached = 0; uncached = 0 }

  -- Cache.__setitem__
  unfoldable pub set : ℕ → V → Cache V → Cache V
  set key val c = record c { dict = Dict.put c.dict key val }

  -- Cache.invalidate
  unfoldable pub invalidate : ℕ → Cache V → Cache V
  invalidate key c = if Dict.has c.dict key then record c { dict = Dict.remove c.dict key } else c

  -- Cache.invalidate_all
  unfoldable pub invalidate_all : Cache V → Cache V
  invalidate_all c = record c { dict = [] }

  -- Cache.__getitem__, with what the fetcher returned or raised
  unfoldable pub getitem : (ℕ → Result V) → ℕ → Exec (Cache V) V
  getitem fetcher key c = elim (Dict.get c.dict key) [
    | some v ↦ (ok v, record c { cached = c.cached + 1 })
    | none ↦
        let c' = record c { uncached = c.uncached + 1 } in
        elim (fetcher key) [ raise e ↦ (raise e, c') | ok v ↦ (ok v, set key v c') ]
  ]

-- The caches of a CachingClient.
pub record Caches : Type 0 where
  pub uconferences : Cache UConference
  pub conferences : Cache Conference
  pub persons : Cache Person
  pub textstats : Cache TextStat

-- A handler of asynchronous messages; a message without the attribute that it reads is an
-- AttributeError, which `unspecified` stands for.
abbrev pub Handler : Type 0
Handler = AsyncMessage → Exec Caches (Unit {0})

unfoldable pub invalidate_conference : ℕ → Exec Caches (Unit {0})
invalidate_conference key s = (ok tt, record s { conferences = invalidate key s.conferences })

unfoldable pub invalidate_uconference : ℕ → Exec Caches (Unit {0})
invalidate_uconference key s = (ok tt, record s { uconferences = invalidate key s.uconferences })

unfoldable pub invalidate_textstat : ℕ → Exec Caches (Unit {0})
invalidate_textstat key s = (ok tt, record s { textstats = invalidate key s.textstats })

-- A key of a cache is a number: a Time, which has `__eq__`, cannot be hashed.
unfoldable pub key_of : MiscData → Exec Caches ℕ
key_of (number n) = pure n
key_of (time t) = throw type_error

unfoldable pub for_each :
    {A : Type 0} → (A → Exec Caches (Unit {0})) → List A → Exec Caches (Unit {0})
for_each f [] = pure tt
for_each f (x ∷ l) = f x >> for_each f l

unfoldable pub cah_new_name : Handler
cah_new_name (async_new_name conf_no old new) =
    invalidate_uconference conf_no >> invalidate_conference conf_no
cah_new_name _ = throw unspecified

unfoldable pub cah_leave_conf : Handler
cah_leave_conf (async_leave_conf conf_no) = invalidate_conference conf_no
cah_leave_conf _ = throw unspecified

unfoldable pub deleted_recipient : MiRecipient → Exec Caches (Unit {0})
deleted_recipient rcpt = key_of rcpt.recpt >>= invalidate_conference

unfoldable pub cah_deleted_text : Handler
cah_deleted_text (async_deleted_text text_no ts) =
    for_each deleted_recipient ts.misc_info.recipient_list
cah_deleted_text _ = throw unspecified

unfoldable pub new_recipient : MiRecipient → Exec Caches (Unit {0})
new_recipient rcpt = key_of rcpt.recpt >>= λ n. invalidate_conference n >> invalidate_uconference n

unfoldable pub commented : MiCommentTo → Exec Caches (Unit {0})
commented ct = key_of ct.text_no >>= invalidate_textstat

unfoldable pub cah_new_text : Handler
cah_new_text (async_new_text text_no ts) =
    for_each new_recipient ts.misc_info.recipient_list
    >> for_each commented ts.misc_info.comment_to_list
cah_new_text _ = throw unspecified

unfoldable pub cah_new_recipient : Handler
cah_new_recipient (async_new_recipient text_no conf_no type) =
    invalidate_conference conf_no >> (invalidate_uconference conf_no >> invalidate_textstat text_no)
cah_new_recipient _ = throw unspecified

unfoldable pub cah_sub_recipient : Handler
cah_sub_recipient (async_sub_recipient text_no conf_no type) =
    invalidate_conference conf_no >> invalidate_textstat text_no
cah_sub_recipient _ = throw unspecified

unfoldable pub cah_new_membership : Handler
cah_new_membership (async_new_membership pers_no conf_no) = invalidate_conference conf_no
cah_new_membership _ = throw unspecified

-- `_async_handlers`
abbrev pub Handlers : Type 0
Handlers = Dict (List Handler)

-- CachingClient._add_async_handler
unfoldable pub add_async_handler : ℕ → Handler → Handlers → Result Handlers
add_async_handler n handler handlers =
    if Dict.has async_dict n
    then elim (Dict.get handlers n) [
      | some l ↦ ok (Dict.put handlers n (l ++ handler ∷ []))
      | none ↦ ok (Dict.put handlers n (handler ∷ []))
    ]
    else raise (unimplemented_async n)

-- The registrations in `CachingClient.__init__`.
abbrev pub registrations : List (ℕ × Handler)
registrations =
    (5, cah_new_name)
    ∷ (8, cah_leave_conf)
    ∷ (14, cah_deleted_text)
    ∷ (15, cah_new_text)
    ∷ (16, cah_new_recipient)
    ∷ (17, cah_sub_recipient)
    ∷ (18, cah_new_membership)
    ∷ []

unfoldable pub register : List (ℕ × Handler) → Handlers → Result Handlers
register [] handlers = ok handlers
register ((n, handler) ∷ l) handlers = elim (add_async_handler n handler handlers) [
  | ok handlers' ↦ register l handlers'
  | raise e ↦ raise e
]

unfoldable pub call_all : List Handler → Handler
call_all [] msg = pure tt
call_all (handler ∷ l) msg = handler msg >> call_all l msg

-- CachingClient._handle_async_message
unfoldable pub handle_async_message : Handlers → Handler
handle_async_message handlers msg = elim (Dict.get handlers (msg_no msg)) [
  | some l ↦ call_all l msg
  | none ↦ pure tt
]
