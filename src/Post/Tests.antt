-- ===== src/Post/Tests.antt =====
-- Posts on the sample platform: instances of the theorems.
use ticket_queue_platform.Prelude.{refl, [], ◌∷◌}
use ticket_queue_platform.Schema.{Post, PostStatus}
use ticket_queue_platform.Platform.{World}
use ticket_queue_platform.Samples.{memory, opening}
use ticket_queue_platform.Post.Repository.{CreatePostInput}
use ticket_queue_platform.Post.Consistent.{
  Answers, posts, replies, perform, here, next, Reach-Answers,
}

abbrev question : CreatePostInput
question = record { title = "Seats"; content = "Where?" }

abbrev asked : Post
asked = record { user_id = 7; title = "Seats"; content = "Where?"; status = PostStatus.pending }

-- User 7 has asked.
abbrev waiting_post : World memory
waiting_post = record opening { posts = (3, asked) ∷ [] }

Reach-Answers_example :
    Answers
      (perform (replies 0 2 "There") (record (perform (posts 7 question) opening) { faults = [] }))
Reach-Answers_example =
    Reach-Answers opening
      (perform (replies 0 2 "There") (record (perform (posts 7 question) opening) { faults = [] }))
      (λ i. refl) (next (replies 0 2 "There") [] (next (posts 7 question) [] here))
