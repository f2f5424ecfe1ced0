-- ===== src/Post/Replies.antt =====
-- What a user and an administrator can do with a post, where no call fails.
use Prim.Native.String.{String}
use ticket_queue_platform.Prelude.{
  ℕ, ◌≡◌, ◌↔◌, refl, ap, ◌∙◌, true, false, Bool, ◌==◌, if◌then◌else◌, Option, none, some, is_some,
  arith, ok, err, [],
}
use ticket_queue_platform.Errors.{app_error, text}
use ticket_queue_platform.Schema.{Post, Reply}
use ticket_queue_platform.Platform.{Platform, World, calm}
use ticket_queue_platform.Post.Repository.{set_answered, post_repository}
use ticket_queue_platform.Post.Service.{delete_post, create_reply, get_post_detail, is_open}

-- a post that a user may delete
abbrev pub is_deletable : ℕ → Option Post → Bool
is_deletable u none = false
is_deletable u (some x) = if x.user_id == u then is_open x.status else false

module _ {p : Platform} (i : ℕ) (w : World p) where
  abbrev pub reply_of : ℕ → String → Reply
  reply_of a content = record { admin_id = a; content = content }

  abbrev pub replied : ℕ → String → World p
  replied a content = record w {
    replies = p.replies.inserted i (reply_of a content) w.replies;
    posts = p.posts.modified i set_answered w.posts;
    faults = [];
  }

  reply-eq :
      (a : ℕ) (content : String)
      → is_some (p.posts.find i w.posts) ≡ true
      → p.replies.find i w.replies ≡ none
      → create_reply i a content (calm w) ≡ (ok tt, replied a content)
  unfolding create_reply post_repository
  reply-eq a content there free = ground (
    arith,
    p.replies.create_lem i (reply_of a content) w.replies,
    p.posts.update_lem i set_answered w.posts,
  )

  -- Where no call fails, a user can delete a post exactly when it is an own post that waits for its reply.
  pub delete_post_iff :
      (u : ℕ)
      → ((delete_post i u (calm w)).0 ≡ ok tt) ↔ (is_deletable u (p.posts.find i w.posts) ≡ true)
  unfolding delete_post post_repository
  delete_post_iff u = (
    λ h. ground (arith, h, p.posts.delete_lem i w.posts),
    λ h. ground (arith, h, p.posts.delete_lem i w.posts),
  )

module _ {p : Platform} (i : ℕ) (w : World p) where
  -- Where no call fails, a first reply to a post marks it as answered, a second one is refused with 409,
  -- the author reads the post with the reply, and can no longer delete it.
  pub create_reply_once :
      (a b u : ℕ) (content other : String) (x : Post)
      → p.posts.find i w.posts ≡ some x
      → (x.user_id == u) ≡ true
      → p.replies.find i w.replies ≡ none
      → let after = (create_reply i a content (calm w)).1 in
        ((create_reply i a content (calm w)).0 ≡ ok tt)
        × (create_reply i b other after ≡ (err (app_error 409 (text "이미 답변이 등록된 문의입니다")), after))
        × ((get_post_detail i u after).0
            ≡ ok (record {
              row = set_answered x;
              reply = some (record { admin_id = a; content = content });
            }))
        × (delete_post i u after ≡ (err (app_error 400 (text "답변이 등록된 문의는 삭제할 수 없습니다")), after))
  unfolding create_reply get_post_detail delete_post post_repository
  create_reply_once a b u content other x found own free =
      rw (reply-eq i w a content (ap is_some found) free) (
        refl,
        ground (arith, post_after, reply_after),
        ground (arith, post_after, reply_after),
        ground (arith, post_after, reply_after),
      )
    where
      post_after : p.posts.find i (replied i w a content).posts ≡ some (set_answered x)
      post_after = ground (arith, found, p.posts.find-modified i i set_answered w.posts)

      reply_after :
          p.replies.find i (replied i w a content).replies
          ≡ some (record { admin_id = a; content = content })
      reply_after = p.replies.find-inserted i i (reply_of i w a content) w.replies ∙ ground arith
