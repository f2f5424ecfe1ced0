-- ===== src/Post/Repository.antt =====
-- src/repositories/post.repository.ts. The order of lists by date, and the ids of replies, are left out.
use mathlib.Core.Option
use Prim.Native.String.{String}
use ticket_queue_platform.Prelude.{ℕ, ◌==◌, Option, List, map, select, both, Action, ◌>>◌, pure}
use ticket_queue_platform.Errors.{record_not_found, unique_violation}
use ticket_queue_platform.Schema.{Post, PostStatus, Reply}
use ticket_queue_platform.Platform.{Platform, World, query, write}

-- the fields of `CreatePostInput`
pub record CreatePostInput : Type 0 where
  pub title : String
  pub content : String

-- a post with its reply
pub record FoundPost : Type 0 where
  pub row : Post
  pub open row use *
  pub reply : Option Reply

-- an entry of the list of all posts, with the nickname of its author
pub record PostSummary : Type 0 where
  pub id : ℕ
  pub row : Post
  pub open row use *
  pub user_nickname : Option String
  pub reply : Option Reply

abbrev pub new_post : ℕ → CreatePostInput → Post
new_post user_id input = record {
  user_id = user_id;
  title = input.title;
  content = input.content;
  status = PostStatus.pending;
}

abbrev pub set_answered : Post → Post
set_answered x = record x { status = PostStatus.answered }

abbrev pub set_content : String → Reply → Reply
set_content content r = record r { content = content }

module _ {p : Platform} where
  -- the id of the new row
  unfoldable pub create_post : ℕ → CreatePostInput → Action (World p) ℕ
  create_post user_id input w =
      (do
        write (λ v. p.posts.create (p.posts.fresh w.posts) (new_post user_id input) v.posts)
            unique_violation (λ rows v. record v { posts = rows })
        pure (p.posts.fresh w.posts))
        w

  unfoldable pub find_posts_by_user : ℕ → Action (World p) (List (ℕ × Post))
  find_posts_by_user user_id =
      query (λ w. select (λ e. e.1.user_id == user_id) (p.posts.rows w.posts))

  abbrev pub with_reply : World p → ℕ → Post → FoundPost
  with_reply w id x = record { row = x; reply = p.replies.find id w.replies }

  unfoldable pub find_post_by_id : ℕ → Action (World p) (Option FoundPost)
  find_post_by_id id = query (λ w. Option.map (with_reply w id) (p.posts.find id w.posts))

  -- with the reply, which the database deletes along
  unfoldable pub delete_post : ℕ → Action (World p) (Unit {0})
  delete_post id =
      write (λ w. p.posts.delete id w.posts) record_not_found
        (λ rows w. record w {
          posts = rows;
          replies = p.replies.delete_where (λ i r. i == id) w.replies;
        })

  abbrev pub summary : World p → ℕ × Post → PostSummary
  summary w e = record {
    id = e.0;
    row = e.1;
    user_nickname = Option.map (λ u. u.nickname) (p.users.find e.1.user_id w.users);
    reply = p.replies.find e.0 w.replies;
  }

  unfoldable pub find_all_posts : Action (World p) (List PostSummary)
  find_all_posts = query (λ w. map (summary w) (p.posts.rows w.posts))

  -- both writes or none
  unfoldable pub create_reply : ℕ → ℕ → String → Action (World p) (Unit {0})
  create_reply post_id admin_id content =
      write
        (λ w.
          both
            (p.replies.create post_id (record { admin_id = admin_id; content = content }) w.replies)
            (p.posts.update post_id set_answered w.posts))
        unique_violation (λ rows w. record w { replies = rows.0; posts = rows.1 })

  unfoldable pub find_reply_by_post_id : ℕ → Action (World p) (Option Reply)
  find_reply_by_post_id post_id = query (λ w. p.replies.find post_id w.replies)

  unfoldable pub update_reply : ℕ → String → Action (World p) (Unit {0})
  update_reply post_id content =
      write (λ w. p.replies.update post_id (set_content content) w.replies) record_not_found
        (λ rows w. record w { replies = rows })

-- Names the functions of this file, so that a proof opens them by one name.
unfoldable pub post_repository : Unit {0}
unfolding create_post find_posts_by_user find_post_by_id delete_post find_all_posts create_reply
    find_reply_by_post_id update_reply
post_repository = tt
