-- ===== src/Session/Kom.antt =====
-- komsession.py: the values that a `KomSession` returns.
use pylyskom.Base.{ℕ, Bytes, List, Option}
use pylyskom.Datatypes.Time.{Time}
use pylyskom.Datatypes.AuxItem.{AuxItem}
use pylyskom.Datatypes.MiscInfo.{MiRecipient, MiCommentTo, MiCommentIn}
use pylyskom.Datatypes.Membership.{Membership11}
use pylyskom.Datatypes.Text.{TextStat}
use pylyskom.Datatypes.Conference.{Conference, UConference}
use pylyskom.Session.{Str}

pub record KomPerson : Type 0 where
  pub pers_no : ℕ
  pub username : Str

pub record KomMembershipUnread : Type 0 where
  pub pers_no : ℕ
  pub conf_no : ℕ
  pub no_of_unread : ℕ
  pub unread_texts : List ℕ

pub record KomAuxItem : Type 0 where
  pub aux_no : ℕ
  pub tag : ℕ
  pub created_at : Time
  pub flags : List ℕ
  pub inherit_limit : ℕ
  pub value : Bytes
  pub creator : KomPerson

-- KomAuxItem.__init__
unfoldable pub kom_aux_item : AuxItem → KomPerson → KomAuxItem
kom_aux_item a creator = record {
  aux_no = a.aux_no;
  tag = a.tag;
  created_at = a.created_at;
  flags = a.flags;
  inherit_limit = a.inherit_limit;
  value = a.value;
  creator = creator;
}

pub record KomTextStat : Type 0 where
  pub text_no : ℕ
  pub author : KomPerson
  pub creation_time : Time
  pub no_of_marks : ℕ
  pub recipient_list : List MiRecipient
  pub comment_to_list : List MiCommentTo
  pub comment_in_list : List MiCommentIn
  pub aux_items : List KomAuxItem

-- KomTextStat.__init__
unfoldable pub kom_text_stat : ℕ → TextStat → List KomAuxItem → KomPerson → KomTextStat
kom_text_stat text_no t aux_items author = record {
  text_no = text_no;
  author = author;
  creation_time = t.creation_time;
  no_of_marks = t.no_of_marks;
  recipient_list = t.misc_info.recipient_list;
  comment_to_list = t.misc_info.comment_to_list;
  comment_in_list = t.misc_info.comment_in_list;
  aux_items = aux_items;
}

pub record KomUConference : Type 0 where
  pub conf_no : ℕ
  pub name : Str
  pub type : List ℕ
  pub highest_local_no : ℕ
  pub nice : ℕ

-- KomUConference.__init__ with `uconf`
unfoldable pub kom_u_conference : ℕ → UConference → KomUConference
kom_u_conference conf_no u = record {
  conf_no = conf_no;
  name = u.name;
  type = u.type;
  highest_local_no = u.highest_local_no;
  nice = u.nice;
}

pub record KomConference : Type 0 where
  pub conf_no : ℕ
  pub creator : KomPerson
  pub supervisor : KomUConference
  pub permitted_submitters : Option KomUConference
  pub super_conf : Option KomUConference
  pub aux_items : List KomAuxItem
  -- The fields that are taken over: name, type, creation_time, last_written and so on.
  pub conf : Conference

pub record KomMembership : Type 0 where
  pub pers_no : ℕ
  pub added_by : KomPerson
  pub conference : KomUConference
  pub position : ℕ
  pub last_time_read : Time
  pub priority : ℕ
  pub added_at : Time
  pub type : List ℕ

-- KomMembership.__init__
unfoldable pub kom_membership : ℕ → Membership11 → KomPerson → KomUConference → KomMembership
kom_membership pers_no m added_by conference = record {
  pers_no = pers_no;
  added_by = added_by;
  conference = conference;
  position = m.position;
  last_time_read = m.last_time_read;
  priority = m.priority;
  added_at = m.added_at;
  type = m.type;
}
