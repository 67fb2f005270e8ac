-- ===== src/Cache/Invalidation.antt =====
-- cachedconnection.py: what the handlers of a CachingClient make its caches forget.
use pylyskom.Base.{
  ℕ, ◌≡◌, refl, sym, ap, ◌∙◌, List, [], ◌∷◌, map, Bool, true, false, ◌||◌, Option, none,
  if◌then◌else◌, ◌==◌, Bool-cases, inl, inr, All, contains, arith,
}
use pylyskom.Result.{ok}
use pylyskom.Exec.{◌>>=◌, ◌>>◌}
use pylyskom.Dict
use pylyskom.Dict.{Dict}
use pylyskom.AsyncMessages.{
  AsyncMessage, msg_no, async_dict, async_new_name, async_leave_conf, async_deleted_text,
  async_new_text, async_new_recipient, async_sub_recipient, async_new_membership,
}
use pylyskom.Datatypes.MiscInfo.{MiscData, time, number, MiRecipient, MiCommentTo}
use pylyskom.Datatypes.Text.{TextStat}
use pylyskom.Cache.{
  Cache, Caches, Handlers, invalidate, invalidate_conference, invalidate_uconference,
  invalidate_textstat, key_of, for_each, deleted_recipient, new_recipient, commented, cah_new_name,
  cah_leave_conf, cah_deleted_text, cah_new_text, cah_new_recipient, cah_sub_recipient,
  cah_new_membership, add_async_handler, registrations, register, call_all, handle_async_message,
}

abbrev pub IsNumber : MiscData → Type 0
IsNumber (number n) = Unit
IsNumber (time t) = ⊥

abbrev number_of : MiscData → ℕ
number_of (number n) = n
number_of (time t) = 0

abbrev pub recipients : TextStat → List ℕ
recipients ts = map (λ r. number_of r.recpt) ts.misc_info.recipient_list

abbrev pub comments : TextStat → List ℕ
comments ts = map (λ c. number_of c.text_no) ts.misc_info.comment_to_list

-- The conferences that a message names, as its own or as recipients of its text; they are forgotten
-- for their name, their texts or their members.
abbrev pub forgotten_conferences : AsyncMessage → List ℕ
forgotten_conferences (async_new_name conf_no old new) = conf_no ∷ []
forgotten_conferences (async_leave_conf conf_no) = conf_no ∷ []
forgotten_conferences (async_deleted_text text_no ts) = recipients ts
forgotten_conferences (async_new_text text_no ts) = recipients ts
forgotten_conferences (async_new_recipient text_no conf_no type) = conf_no ∷ []
forgotten_conferences (async_sub_recipient text_no conf_no type) = conf_no ∷ []
forgotten_conferences (async_new_membership pers_no conf_no) = conf_no ∷ []
forgotten_conferences _ = []

-- Of these, the ones whose uconference is forgotten, for its name or its highest local number.
abbrev pub forgotten_uconferences : AsyncMessage → List ℕ
forgotten_uconferences (async_new_name conf_no old new) = conf_no ∷ []
forgotten_uconferences (async_new_text text_no ts) = recipients ts
forgotten_uconferences (async_new_recipient text_no conf_no type) = conf_no ∷ []
forgotten_uconferences _ = []

-- The texts that are forgotten: those that a new text comments, for the comments, and those with a new
-- or a lost recipient. A deleted text is not among them.
abbrev pub forgotten_textstats : AsyncMessage → List ℕ
forgotten_textstats (async_new_text text_no ts) = comments ts
forgotten_textstats (async_new_recipient text_no conf_no type) = text_no ∷ []
forgotten_textstats (async_sub_recipient text_no conf_no type) = text_no ∷ []
forgotten_textstats _ = []

abbrev pub HasNumbers : AsyncMessage → Type 0
HasNumbers (async_deleted_text text_no ts) = All (λ r. IsNumber r.recpt) ts.misc_info.recipient_list
HasNumbers (async_new_text text_no ts) =
    All (λ r. IsNumber r.recpt) ts.misc_info.recipient_list
    × All (λ c. IsNumber c.text_no) ts.misc_info.comment_to_list
HasNumbers _ = Unit

-- `c'` is `c` without the entries under `l`.
abbrev pub Forgets : {V : Type 0} → List ℕ → Cache V → Cache V → Type 0
Forgets l c c' = (k : ℕ) → Dict.get c'.dict k ≡ (if contains l k then none else Dict.get c.dict k)

-- The caches once each number of the lists was invalidated, in order.
abbrev invalidate_all_of : {V : Type 0} → List ℕ → Cache V → Cache V
invalidate_all_of [] c = c
invalidate_all_of (n ∷ l) c = invalidate_all_of l (invalidate n c)

pub get-invalidate :
    {V : Type 0} (n k : ℕ) (c : Cache V)
    → Dict.get (invalidate n c).dict k ≡ (if n == k then none else Dict.get c.dict k)
unfolding invalidate
get-invalidate n k c = elim (Bool-cases (Dict.has c.dict n)) [
  | inl there ↦ rw there (Dict.get-remove c.dict n k)
  | inr absent ↦ rw absent (elim (Bool-cases (n == k)) [
    | inl same ↦
        let e : n ≡ k = ground arith in
        rw same (ap (Dict.get c.dict) (sym e) ∙ Dict.get-absent c.dict n absent)
    | inr other ↦ rw other refl
  ])
]

Forgets-invalidate_all_of :
    {V : Type 0} (l : List ℕ) (c : Cache V) → Forgets l c (invalidate_all_of l c)
Forgets-invalidate_all_of [] c k = refl
Forgets-invalidate_all_of (n ∷ l) c k =
    Forgets-invalidate_all_of l (invalidate n c) k
    ∙ ap (λ o. if contains l k then none else o) (get-invalidate n k c)
    ∙ either (n == k) (contains l k) (Dict.get c.dict k)
  where
    either :
        {A : Type 0} (a b : Bool) (o : Option A)
        → (if b then none else if a then none else o) ≡ (if a || b then none else o)
    either true true o = refl
    either true false o = refl
    either false b o = refl

for_each-deleted_recipient :
    (l : List MiRecipient) (s : Caches)
    → All (λ r. IsNumber r.recpt) l
    → for_each deleted_recipient l s ≡ (
      ok tt,
      record s { conferences = invalidate_all_of (map (λ r. number_of r.recpt) l) s.conferences },
    )
unfolding for_each deleted_recipient key_of invalidate_conference
for_each-deleted_recipient [] s h = refl
for_each-deleted_recipient (r ∷ l) s (h, hs) =
    elim r.recpt
        as (λ m.
          IsNumber m
          → (key_of m >>= invalidate_conference >> for_each deleted_recipient l) s ≡ (
            ok tt,
            record s {
              conferences =
                  invalidate_all_of (number_of m ∷ map (λ r. number_of r.recpt) l) s.conferences;
            },
          )) [
            | number n ↦ λ _.
                for_each-deleted_recipient l (record s { conferences = invalidate n s.conferences })
                  hs
            | time t ↦ λ x. absurd x
          ]
      h

for_each-new_recipient :
    (l : List MiRecipient) (s : Caches)
    → All (λ r. IsNumber r.recpt) l
    → for_each new_recipient l s ≡ (
      ok tt,
      record s {
        conferences = invalidate_all_of (map (λ r. number_of r.recpt) l) s.conferences;
        uconferences = invalidate_all_of (map (λ r. number_of r.recpt) l) s.uconferences;
      },
    )
unfolding for_each new_recipient key_of invalidate_conference invalidate_uconference
for_each-new_recipient [] s h = refl
for_each-new_recipient (r ∷ l) s (h, hs) =
    elim r.recpt
        as (λ m.
          IsNumber m
          → (key_of m
                >>= (λ n. invalidate_conference n >> invalidate_uconference n)
                >> for_each new_recipient l)
              s
            ≡ (
              ok tt,
              record s {
                conferences =
                    invalidate_all_of (number_of m ∷ map (λ r. number_of r.recpt) l) s.conferences;
                uconferences =
                    invalidate_all_of (number_of m ∷ map (λ r. number_of r.recpt) l) s.uconferences;
              },
            )) [
              | number n ↦ λ _.
                  for_each-new_recipient l
                    (record s {
                      conferences = invalidate n s.conferences;
                      uconferences = invalidate n s.uconferences;
                    })
                    hs
              | time t ↦ λ x. absurd x
            ]
      h

for_each-commented :
    (l : List MiCommentTo) (s : Caches)
    → All (λ c. IsNumber c.text_no) l
    → for_each commented l s ≡ (
      ok tt,
      record s { textstats = invalidate_all_of (map (λ c. number_of c.text_no) l) s.textstats },
    )
unfolding for_each commented key_of invalidate_textstat
for_each-commented [] s h = refl
for_each-commented (c ∷ l) s (h, hs) =
    elim c.text_no
        as (λ m.
          IsNumber m
          → (key_of m >>= invalidate_textstat >> for_each commented l) s ≡ (
            ok tt,
            record s {
              textstats =
                  invalidate_all_of (number_of m ∷ map (λ c. number_of c.text_no) l) s.textstats;
            },
          )) [
            | number n ↦
                λ _. for_each-commented l (record s { textstats = invalidate n s.textstats }) hs
            | time t ↦ λ x. absurd x
          ]
      h

-- What a new client has registered.
abbrev pub initial_handlers : Handlers
initial_handlers = map (λ (n, handler). (n, handler ∷ [])) registrations

registered : register registrations [] ≡ ok initial_handlers
unfolding register add_async_handler async_dict Dict.get Dict.put Dict.has
registered = refl

handled :
    (msg : AsyncMessage) (s : Caches)
    → HasNumbers msg
    → handle_async_message initial_handlers msg s ≡ (
      ok tt,
      record s {
        conferences = invalidate_all_of (forgotten_conferences msg) s.conferences;
        uconferences = invalidate_all_of (forgotten_uconferences msg) s.uconferences;
        textstats = invalidate_all_of (forgotten_textstats msg) s.textstats;
      },
    )
unfolding handle_async_message call_all msg_no Dict.get cah_new_name cah_leave_conf cah_deleted_text
    cah_new_text cah_new_recipient cah_sub_recipient cah_new_membership invalidate_conference
    invalidate_uconference invalidate_textstat
handled (async_deleted_text text_no ts) s h =
    rw (for_each-deleted_recipient ts.misc_info.recipient_list s h) refl
handled (async_new_text text_no ts) s (h, k) =
    rw (for_each-new_recipient ts.misc_info.recipient_list s h) (
      rw
        (for_each-commented ts.misc_info.comment_to_list
          (record s {
            conferences = invalidate_all_of (recipients ts) s.conferences;
            uconferences = invalidate_all_of (recipients ts) s.uconferences;
          })
          k)
        refl)
handled _ s h = refl

-- Registering the handlers of a new CachingClient succeeds, and with them every message of which
-- the recipients and comments are numbers is handled without an error: the caches of conferences,
-- of uconferences and of text statuses lose exactly the entries that the comments on the handlers
-- name for the message, and keep all others. The cache of persons stays as it was, also at a new text, although that changes
-- what the server knows of its author.
pub handle_async_message-Forgets :
    (msg : AsyncMessage) (s : Caches)
    → HasNumbers msg
    → let w = handle_async_message initial_handlers msg s in
      (register registrations [] ≡ ok initial_handlers)
      × (w.0 ≡ ok tt)
      × Forgets (forgotten_conferences msg) s.conferences w.1.conferences
      × Forgets (forgotten_uconferences msg) s.uconferences w.1.uconferences
      × Forgets (forgotten_textstats msg) s.textstats w.1.textstats
      × (w.1.persons ≡ s.persons)
handle_async_message-Forgets msg s h = rw (handled msg s h) (
  registered,
  refl,
  Forgets-invalidate_all_of (forgotten_conferences msg) s.conferences,
  Forgets-invalidate_all_of (forgotten_uconferences msg) s.uconferences,
  Forgets-invalidate_all_of (forgotten_textstats msg) s.textstats,
  refl,
)
