-- ===== src/Samples.antt =====
-- A platform in memory with one concert on sale, for the tests of the components.
use ticket_queue_platform.Prelude.{true, some, none, [], ◌∷◌, pos}
use Prim.Native.String.{String}
use ticket_queue_platform.Schema.{
  Concert, ConcertZone, Reservation, Payment, RefreshToken, Post, Reply, on_sale,
}
use ticket_queue_platform.Services.Memory.Keyspace.{keyspace}
use ticket_queue_platform.Services.Memory.Tables.{table, job_queue}
use ticket_queue_platform.Services.Memory.Accounts.{users_in_memory, open_crypto}
use ticket_queue_platform.Services.Redis.{stock, number}
use ticket_queue_platform.Platform.{Platform, World, ReservationExpiryPayload}

abbrev pub memory : Platform
memory = record {
  redis = keyspace;
  concerts = table Concert;
  zones = table ConcertZone;
  reservations = table Reservation;
  payments = table Payment;
  expiry = job_queue ReservationExpiryPayload;
  crypto = open_crypto;
  users = users_in_memory String;
  tokens = table RefreshToken;
  posts = table Post;
  replies = table Reply;
  refresh_expires_in = none;
}

abbrev pub concert : Concert
concert = record {
  title = "Tour";
  artist = "Band";
  venue = "Arena";
  concert_date = 9000000;
  sale_start_at = 1000;
  status = on_sale;
}

abbrev pub zone : ConcertZone
zone = record {
  concert_id = 1;
  name = "VIP";
  price = 100;
  total_quantity = 10;
  remain_quantity = pos 10;
}

-- Concert 1 with zone 5, ten tickets in stock; users 7 and 8 wait.
abbrev pub opening : World memory
opening = record {
  redis = record {
    strings = (stock 5, (number (pos 10), pos 0)) ∷ [];
    sets = λ k. (2000, 7) ∷ (2500, 8) ∷ [];
  };
  concerts = (1, concert) ∷ [];
  zones = (5, zone) ∷ [];
  reservations = [];
  payments = [];
  expiry = [];
  io = true;
  sockets =
      (record { id = 70; user_id = some 7; concert_id = some 1; rooms = 1 ∷ [] })
      ∷ (record { id = 80; user_id = some 8; concert_id = some 1; rooms = 1 ∷ [] })
      ∷ (record { id = 90; user_id = none; concert_id = none; rooms = 1 ∷ [] })
      ∷ [];
  disconnects = [];
  users = [];
  tokens = [];
  posts = [];
  replies = [];
  random = 100;
  sent = [];
  now = 3000;
  faults = [];
}
