-- ===== src/Client/Support/Answering.antt =====
-- The dialog that answers a post, together with the server that its call reaches.
use Prim.Native.String.{String}
use ticket_queue_platform.Prelude.{
  ℕ, ◌≡◌, refl, subst, false, not, Option, none, some, ◌∷◌, ok, Action, pure, arith,
}
use mathlib.Core.Option
use ticket_queue_platform.Schema.{Post, Reply, PostStatus}
use ticket_queue_platform.Platform.{Platform, World, calm}
use ticket_queue_platform.Post.Repository.{set_answered, set_content, post_repository}
use ticket_queue_platform.Post.Service.{create_reply, update_reply, is_open}
use ticket_queue_platform.Post.Consistent.{Answers, Consistent}
use ticket_queue_platform.Client.Lists.{is_answered}
use ticket_queue_platform.Client.Support.{
  AdminPost, PostCall, send_post, send_reply, send_update, send_deletion, FormState, reply_call,
  submit_reply, is_empty_text,
}

answered_lem : (t : PostStatus) → is_answered t ≡ not (is_open t)
answered_lem PostStatus.pending = refl
answered_lem PostStatus.answered = refl

-- the entry of the list for a row and its reply
abbrev pub listed : ℕ → Post → Option Reply → AdminPost
listed i x r = record { id = i; status = x.status; reply = Option.map (λ y. y.content) r }

module _ {p : Platform} where
  -- what the server does with the call of an administrator
  abbrev pub received : ℕ → PostCall → Action (World p) (Unit {0})
  received a (send_reply i content) = create_reply i a content
  received a (send_update i content) = update_reply i content
  received a (send_post title content) = pure tt
  received a (send_deletion i) = pure tt

  module _ (trim : String → String) (i a : ℕ) (w : World p) (x : Post) (answers : Answers w)
      (found : p.posts.find i w.posts ≡ some x) where
    consistent : Consistent (some x) (p.replies.find i w.replies)
    consistent = subst (λ o. Consistent o (p.replies.find i w.replies)) found (answers i)

    accepted :
        (o : Option Reply) (content : String)
        → p.replies.find i w.replies ≡ o
        → Consistent (some x) o
        → (received a (reply_call trim (listed i x o) content) (calm w)).0 ≡ ok tt
    unfolding create_reply update_reply post_repository
    accepted none content e h = ground (
      arith,
      found,
      answered_lem x.status,
      p.replies.create_lem i (record { admin_id = a; content = content }) w.replies,
      p.posts.update_lem i set_answered w.posts,
    )
    accepted (some y) content e h = ground (
      arith,
      found,
      answered_lem x.status,
      p.replies.update_lem i (set_content content) w.replies,
    )

    -- The dialog that answers a post whose entry in the list is as the server has it, where posts are
    -- answered just when they have a reply, no call fails, and the text is not empty: the button
    -- sends one call, a new reply or a change of the one that is there, and the server accepts it.
    pub reply_accepted :
        (s : FormState)
        → s.loading ≡ false
        → is_empty_text trim s.content ≡ false
        → let c = reply_call trim (listed i x (p.replies.find i w.replies)) (trim s.content) in
          ((submit_reply trim (listed i x (p.replies.find i w.replies)) s).calls ≡ c ∷ s.calls)
          × ((received a c (calm w)).0 ≡ ok tt)
    unfolding submit_reply
    reply_accepted s ready filled =
        (ground arith, accepted (p.replies.find i w.replies) (trim s.content) refl consistent)
