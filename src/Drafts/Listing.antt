-- ===== src/Drafts/Listing.antt =====
-- store.go, `List`.
use Prim.Native.String.{◌++◌ as text_append}
use dankmail.Base.{
  String, Bool, ◌&&◌, ◌||◌, List, [], ◌∷◌, ◌==◌, nat_eq, string_eq, if◌then◌else◌, values, GoText,
}
use dankmail.Drafts.{DraftView, Items, join_spaces, sort_latest}

module _ (go : GoText) where
  haystack : DraftView → String
  haystack d = go.to_lower (
      text_append d.subject (
        text_append " " (
          text_append d.body (
            text_append " "
              (text_append (join_spaces d.to) (text_append " " (join_spaces d.cc)))))))

  listed_for : String → String → DraftView → Bool
  listed_for account q d =
      (account == "" || d.account_id == account) && (q == "" || go.text_contains (haystack d) q)

  kept_for : String → String → List DraftView → List DraftView
  kept_for account q [] = []
  kept_for account q (d ∷ ds) =
      let rest = kept_for account q ds in if listed_for account q d then d ∷ rest else rest

  unfoldable pub list_drafts : String → String → Items → List DraftView
  unfolding kept_for listed_for haystack
  list_drafts account query items =
      sort_latest (kept_for account (go.to_lower (go.trim_space query)) (values items))
