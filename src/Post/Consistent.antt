-- ===== src/Post/Consistent.antt =====
-- A post is answered just when it has a reply, through every call, whatever calls to the database fail.
use Prim.Native.String.{String}
use ticket_queue_platform.Prelude.{
  ℕ, ◌≡◌, true, false, Bool, not, ◌==◌, Option, none, some, is_some, both, arith, List, ◌>>◌, pure,
}
use ticket_queue_platform.Errors.{app_error, text, unique_violation, record_not_found}
use ticket_queue_platform.Schema.{Post, Reply}
use ticket_queue_platform.Platform.{Platform, World, query, write}
use ticket_queue_platform.Platform.Rules.{
  Keeps, bind_Keeps, query-Keeps, write-Keeps, throw_if-Keeps, or_throw-Keeps, pure-Keeps,
  kept_after,
}
use ticket_queue_platform.Post.Repository.{
  CreatePostInput, FoundPost, new_post, set_answered, set_content, post_repository,
}
use ticket_queue_platform.Post.Service.{
  create_post, delete_post, create_reply, update_reply, is_open,
}

abbrev pub Consistent : Option Post → Option Reply → Type 0
Consistent none none = true ≡ true
Consistent none (some r) = true ≡ false
Consistent (some x) r = is_open x.status ≡ not (is_some r)

-- A call on posts.
pub data Call : Type 0 where
  posts : ℕ → CreatePostInput → Call
  deletes : ℕ → ℕ → Call
  replies : ℕ → ℕ → String → Call
  updates : ℕ → String → Call

module _ {p : Platform} where
  abbrev pub Answers : World p → Type 0
  Answers w = (i : ℕ) → Consistent (p.posts.find i w.posts) (p.replies.find i w.replies)

  reads : {A : Type 0} {f : World p → A} → Keeps Answers (query f)
  reads = query-Keeps (λ w fs h. h)

  create_post-Answers : (u : ℕ) (input : CreatePostInput) → Keeps Answers (create_post u input)
  unfolding create_post post_repository
  create_post-Answers u input = record { run = λ w h. (adding (p.posts.fresh w.posts)).run w h }
    where
      adding :
          (k : ℕ)
          → Keeps Answers (do
            write
                (λ v. p.posts.create k (new_post u input) v.posts)
                unique_violation
                (λ rows v. record v { posts = rows })
            pure k)
      adding k =
          bind_Keeps
            (write-Keeps (λ v. p.posts.create k (new_post u input) v.posts) unique_violation
              (λ rows v. record v { posts = rows }) (λ w fs h. h)
              (λ v rows e h i. ground (
                arith,
                e,
                h i,
                p.posts.create_lem k (new_post u input) v.posts,
                p.posts.find-inserted k i (new_post u input) v.posts,
              )))
            (λ _. pure-Keeps)

  delete_post-Answers : (id u : ℕ) → Keeps Answers (delete_post id u)
  unfolding delete_post post_repository
  delete_post-Answers id u = bind_Keeps (reads {A = Option FoundPost}) λ found.
      bind_Keeps (or_throw-Keeps {A = FoundPost} found (app_error 404 (text "존재하지 않는 문의입니다"))) λ x.
        bind_Keeps
          (throw_if-Keeps (not (x.user_id == u)) (app_error 403 (text "본인의 문의만 삭제할 수 있습니다")))
          λ _.
            bind_Keeps
              (throw_if-Keeps (not (is_open x.status))
                (app_error 400 (text "답변이 등록된 문의는 삭제할 수 없습니다")))
              λ _.
                write-Keeps (λ w. p.posts.delete id w.posts) record_not_found
                  (λ rows w. record w {
                    posts = rows;
                    replies = p.replies.delete_where (λ i r. i == id) w.replies;
                  })
                  (λ w fs h. h)
                  (λ v rows e h i. ground (
                    arith,
                    e,
                    h i,
                    p.posts.delete_lem id v.posts,
                    p.posts.find-deleted id i v.posts,
                    p.replies.find-delete_where (λ j r. j == id) i v.replies,
                  ))

  create_reply-Answers : (id a : ℕ) (content : String) → Keeps Answers (create_reply id a content)
  unfolding create_reply post_repository
  create_reply-Answers id a content = bind_Keeps (reads {A = Option FoundPost}) λ found.
      bind_Keeps (throw_if-Keeps (not (is_some found)) (app_error 404 (text "존재하지 않는 문의입니다"))) λ _.
        bind_Keeps (reads {A = Option Reply}) λ existing.
          bind_Keeps (throw_if-Keeps (is_some existing) (app_error 409 (text "이미 답변이 등록된 문의입니다")))
            λ _.
              write-Keeps
                (λ w.
                  both (p.replies.create id (record { admin_id = a; content = content }) w.replies)
                    (p.posts.update id set_answered w.posts))
                unique_violation (λ rows w. record w { replies = rows.0; posts = rows.1 })
                (λ w fs h. h)
                (λ v rows e h i. ground (
                  arith,
                  e,
                  h i,
                  p.replies.create_lem id (record { admin_id = a; content = content }) v.replies,
                  p.replies.find-inserted id i (record { admin_id = a; content = content })
                      v.replies,
                  p.posts.update_lem id set_answered v.posts,
                  p.posts.find-modified id i set_answered v.posts,
                ))

  update_reply-Answers : (id : ℕ) (content : String) → Keeps Answers (update_reply id content)
  unfolding update_reply post_repository
  update_reply-Answers id content = bind_Keeps (reads {A = Option FoundPost}) λ found.
      bind_Keeps (throw_if-Keeps (not (is_some found)) (app_error 404 (text "존재하지 않는 문의입니다"))) λ _.
        bind_Keeps (reads {A = Option Reply}) λ existing.
          bind_Keeps (throw_if-Keeps (not (is_some existing)) (app_error 404 (text "등록된 답변이 없습니다")))
            λ _.
              write-Keeps (λ w. p.replies.update id (set_content content) w.replies)
                record_not_found (λ rows w. record w { replies = rows }) (λ w fs h. h)
                (λ v rows e h i. ground (
                  arith,
                  e,
                  h i,
                  p.replies.update_lem id (set_content content) v.replies,
                  p.replies.find-modified id i (set_content content) v.replies,
                ))

  -- the world after a call, returned or thrown
  unfoldable pub perform : Call → World p → World p
  perform (posts u input) w = (create_post u input w).1
  perform (deletes id u) w = (delete_post id u w).1
  perform (replies id a content) w = (create_reply id a content w).1
  perform (updates id content) w = (update_reply id content w).1

  -- A call, and which of the calls to the database will fail in it.
  pub data Reach (w : World p) : World p → Type 0 where
    here : Reach w w
    next :
        {v : World p} (e : Call) (fs : List Bool)
        → Reach w v
        → Reach w (perform e (record v { faults = fs }))

  perform-Answers : (e : Call) (w : World p) → Answers w → Answers (perform e w)
  unfolding perform
  perform-Answers (posts u input) = kept_after (create_post-Answers u input)
  perform-Answers (deletes id u) = kept_after (delete_post-Answers id u)
  perform-Answers (replies id a content) = kept_after (create_reply-Answers id a content)
  perform-Answers (updates id content) = kept_after (update_reply-Answers id content)

  -- Through any sequence of calls, whatever calls to the database fail, a post is answered just when
  -- it has a reply, and no reply is without its post, provided that this holds of the first world.
  pub Reach-Answers : (w v : World p) → Answers w → Reach w v → Answers v
  Reach-Answers w v h here = h
  Reach-Answers w v h (next {v = u} e fs r) =
      perform-Answers e (record u { faults = fs }) (Reach-Answers w u h r)
