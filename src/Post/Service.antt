-- ===== src/Post/Service.antt =====
-- src/services/post.service.ts.
use Prim.Native.String.{String}
use ticket_queue_platform.Prelude.{
  ℕ, not, ◌==◌, is_some, Bool, true, false, List, Action, ◌>>=◌, ◌>>◌, pure, or_throw, throw_if,
}
use ticket_queue_platform.Errors.{app_error, text}
use ticket_queue_platform.Schema.{Post, PostStatus}
use ticket_queue_platform.Platform.{Platform, World}
use ticket_queue_platform.Post.Repository.{
  CreatePostInput, FoundPost, PostSummary, create_post as insert_post, find_posts_by_user,
  find_post_by_id, delete_post as remove_post, find_all_posts, create_reply as insert_reply,
  find_reply_by_post_id, update_reply as change_reply,
}

-- `post.status === 'PENDING'`
abbrev pub is_open : PostStatus → Bool
is_open PostStatus.pending = true
is_open PostStatus.answered = false

module _ {p : Platform} where
  unfoldable pub create_post : ℕ → CreatePostInput → Action (World p) ℕ
  create_post user_id input = insert_post user_id input

  unfoldable pub get_my_posts : ℕ → Action (World p) (List (ℕ × Post))
  get_my_posts user_id = find_posts_by_user user_id

  unfoldable pub get_post_detail : ℕ → ℕ → Action (World p) FoundPost
  get_post_detail post_id user_id = do
    found ← find_post_by_id post_id
    post ← or_throw found (app_error 404 (text "존재하지 않는 문의입니다"))
    throw_if (not (post.user_id == user_id)) (app_error 403 (text "본인의 문의만 조회할 수 있습니다"))
    pure post

  unfoldable pub delete_post : ℕ → ℕ → Action (World p) (Unit {0})
  delete_post post_id user_id = do
    found ← find_post_by_id post_id
    post ← or_throw found (app_error 404 (text "존재하지 않는 문의입니다"))
    throw_if (not (post.user_id == user_id)) (app_error 403 (text "본인의 문의만 삭제할 수 있습니다"))
    throw_if (not (is_open post.status)) (app_error 400 (text "답변이 등록된 문의는 삭제할 수 없습니다"))
    remove_post post_id

  unfoldable pub get_all_posts : Action (World p) (List PostSummary)
  get_all_posts = find_all_posts

  unfoldable pub create_reply : ℕ → ℕ → String → Action (World p) (Unit {0})
  create_reply post_id admin_id content = do
    found ← find_post_by_id post_id
    throw_if (not (is_some found)) (app_error 404 (text "존재하지 않는 문의입니다"))
    existing ← find_reply_by_post_id post_id
    throw_if (is_some existing) (app_error 409 (text "이미 답변이 등록된 문의입니다"))
    insert_reply post_id admin_id content

  unfoldable pub update_reply : ℕ → String → Action (World p) (Unit {0})
  update_reply post_id content = do
    found ← find_post_by_id post_id
    throw_if (not (is_some found)) (app_error 404 (text "존재하지 않는 문의입니다"))
    existing ← find_reply_by_post_id post_id
    throw_if (not (is_some existing)) (app_error 404 (text "등록된 답변이 없습니다"))
    change_reply post_id content
