-- ===== src/Rules.antt =====
-- core/internal/rules: the chained-action policies.
use dankmail.Base.{Bool, true, false, List, [], ◌∷◌, if◌then◌else◌}

pub data Trigger : Type 0 where
  preview_opened reply_sent trash star : Trigger

pub record Policies : Type 0 where
  pub mark_read_on_preview : Bool
  pub mark_read_on_reply : Bool
  pub mark_read_on_trash : Bool
  pub unarchive_on_star : Bool

abbrev pub default_policies : Policies
default_policies = record {
  mark_read_on_preview = true;
  mark_read_on_reply = true;
  mark_read_on_trash = true;
  unarchive_on_star = false;
}

-- The companion operations, by the two that occur.
pub data Companion : Type 0 where
  mark_read unarchive : Companion

unfoldable pub expand : Policies → Trigger → List Companion
expand p preview_opened = if p.mark_read_on_preview then mark_read ∷ [] else []
expand p reply_sent = if p.mark_read_on_reply then mark_read ∷ [] else []
expand p trash = if p.mark_read_on_trash then mark_read ∷ [] else []
expand p star = if p.unarchive_on_star then unarchive ∷ [] else []
