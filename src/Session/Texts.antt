-- ===== src/Session/Texts.antt =====
-- komsession.py: reading and marking texts in a `KomSession`.
use pylyskom.Base.{ℕ, List, [], ◌∷◌, Option, some}
use pylyskom.Result.{Result, ok, raise, type_error, unspecified}
use pylyskom.Exec.{Exec, pure, throw, ◌>>=◌, ◌>>◌}
use pylyskom.Datatypes.MiscInfo.{MiscData, number, MiRecipient}
use pylyskom.Datatypes.Text.{TextStat, Mark}
use pylyskom.Requests.Responses
use pylyskom.Requests.Responses.{Reply}
use pylyskom.Requests.Calls.To33.{req_get_marks}
use pylyskom.Caching
use pylyskom.Caching.{ClientApi, ask}
use pylyskom.Caching.Members
use pylyskom.Session.{KomSession, each, on_client, check_connection}
use pylyskom.Session.Kom.{KomTextStat, kom_text_stat}
use pylyskom.Session.Names.{person_of, aux_item_of}

unfoldable pub as_marks : Reply → Result (List Mark)
as_marks (Responses.array_mark l) = ok l
as_marks _ = raise unspecified

-- An attribute that is sent as a number.
unfoldable pub number_in : {S : Type 0} → Option MiscData → Exec S ℕ
number_in (some (number n)) = pure n
number_in _ = throw type_error

module _ {S : Type 0} (api : ClientApi S) where
  -- KomSession._get_komtextstat
  unfoldable pub text_stat_of : ℕ → TextStat → Exec (KomSession S) KomTextStat
  text_stat_of text_no text_stat = do
    author ← person_of api text_stat.author
    aux_items ← each (aux_item_of api) text_stat.aux_items
    pure (kom_text_stat text_no text_stat aux_items author)

module _ {S : Type 0} (api : ClientApi S) (close : S → Result (Unit {0})) where
  -- KomSession.get_text_stat
  unfoldable pub get_text_stat : ℕ → Exec (KomSession S) KomTextStat
  get_text_stat text_no = check_connection close do
    text_stat ← on_client (Caching.get_textstat api text_no)
    text_stat_of api text_no text_stat

  -- The `for` of `mark_as_read` and `mark_as_unread` over the recipients.
  unfoldable pub at_recipients :
      (ℕ → ℕ → Exec (KomSession S) (Unit {0})) → List MiRecipient → Exec (KomSession S) (Unit {0})
  at_recipients f [] = pure tt
  at_recipients f (mi ∷ l) = number_in (some mi.recpt) >>= λ conf_no.
      number_in mi.loc_no >>= λ loc_no. f conf_no loc_no >> at_recipients f l

  -- KomSession.mark_as_read
  unfoldable pub mark_as_read : ℕ → Exec (KomSession S) (Unit {0})
  mark_as_read text_no = check_connection close do
    text_stat ← on_client (Caching.get_textstat api text_no)
    at_recipients (λ conf_no loc_no. on_client (Members.mark_as_read_local api conf_no loc_no))
        text_stat.misc_info.recipient_list

  -- KomSession.mark_as_unread
  unfoldable pub mark_as_unread : ℕ → Exec (KomSession S) (Unit {0})
  mark_as_unread text_no = check_connection close do
    text_stat ← on_client (Caching.get_textstat api text_no)
    at_recipients (λ conf_no loc_no. on_client (Members.mark_as_unread_local api conf_no loc_no))
        text_stat.misc_info.recipient_list

  -- KomSession.get_marks
  unfoldable pub get_marks : Exec (KomSession S) (List Mark)
  get_marks = check_connection close (on_client (ask api as_marks req_get_marks []))

  -- KomSession.mark_text
  unfoldable pub mark_text : ℕ → ℕ → Exec (KomSession S) (Unit {0})
  mark_text text_no mark_type =
      check_connection close (on_client (Caching.mark_text api text_no mark_type))

  -- KomSession.unmark_text
  unfoldable pub unmark_text : ℕ → Exec (KomSession S) (Unit {0})
  unmark_text text_no = check_connection close (on_client (Caching.unmark_text api text_no))
