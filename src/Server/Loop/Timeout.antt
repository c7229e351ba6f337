-- ===== src/Server/Loop/Timeout.antt =====
-- How long `server_loop` of src/server.rs waits.
use nanwei_api_rust.Prelude.{
  ℕ, ◌≤◌, ◌≡◌, ◌⊎◌, refl, ap, inl, inr, List, [], ◌∷◌, Option, none, some, min, arith, Bool-cases,
  leb, ◌==◌, bytes_eq,
}
use mathlib.Core.List.{Memᴰ}
use nanwei_api_rust.Prelude.Map.{get}
use nanwei_api_rust.Quiche.{Quiche}
use nanwei_api_rust.Server.Packet.{Client, Env}
use nanwei_api_rust.Server.Loop.{poll_timeout, sooner}

module _ {Conn : Type 0} (q : Quiche Conn) (env : Env Conn) where
  -- A wait without a timeout, or one that is no longer than t.
  abbrev pub IsUpTo : Option ℕ → ℕ → Type 0
  IsUpTo none t = ⊥
  IsUpTo (some w) t = w ≤ t

  sooner_left : (a : ℕ) (o : Option ℕ) → IsUpTo (sooner (some a) o) a
  sooner_left a none = omega arith
  sooner_left a (some b) = omega arith

  sooner_right : (o p : Option ℕ) (t : ℕ) → IsUpTo p t → IsUpTo (sooner o p) t
  sooner_right none p t h = h
  sooner_right (some a) none t h = absurd h
  sooner_right (some a) (some b) t h = omega arith

  sooner-some : (o p : Option ℕ) (w : ℕ) → sooner o p ≡ some w → (o ≡ some w) ⊎ (p ≡ some w)
  sooner-some none p w h = inr h
  sooner-some (some a) none w h = inl h
  sooner-some (some a) (some b) w h =
      let least : min a b ≡ w = ground arith in
      elim (Bool-cases (leb a b)) [
        | inl e ↦ inl (let w' : a ≡ w = ground arith in ap some w')
        | inr e ↦ inr (let w' : b ≡ w = ground arith in ap some w')
      ]

  poll_timeout-IsUpTo :
      (conn : ℕ → Conn) (l : List (List ℕ × Client)) (k : List ℕ) (client : Client) (t : ℕ)
      → get k l ≡ some client
      → q.timeout (conn client.conn) ≡ some t
      → IsUpTo (poll_timeout q env conn l) t
  unfolding poll_timeout get
  poll_timeout-IsUpTo conn [] k client t g h = absurd (ground arith)
  poll_timeout-IsUpTo conn ((j, c) ∷ l) k client t g h = elim (Bool-cases (j == k)) [
    | inr n ↦ sooner_right _ _ t (poll_timeout-IsUpTo conn l k client t (ground arith) h)
    | inl y ↦
        let same : c ≡ client = ground arith in
        rw (same, h) (sooner_left t (poll_timeout q env conn l))
  ]

  poll_timeout_of :
      (conn : ℕ → Conn) (l : List (List ℕ × Client)) (w : ℕ)
      → poll_timeout q env conn l ≡ some w
      → (k : List ℕ) × (client : Client) × Memᴰ (k, client) l
        × (q.timeout (conn client.conn) ≡ some w)
  unfolding poll_timeout
  poll_timeout_of conn [] w h = absurd (ground arith)
  poll_timeout_of conn ((j, c) ∷ l) w h = elim (sooner-some _ _ w h) [
    | inl e ↦ (j, c, Memᴰ.head refl, e)
    | inr e ↦ let (k, client, at, f) = poll_timeout_of conn l w e in (k, client, Memᴰ.tail at, f)
  ]

  -- The loop waits no longer than the timeout of any of its clients' connections, and if it waits with
  -- a timeout, that is the timeout of one of them.
  pub poll_timeout_least :
      (conn : ℕ → Conn) (l : List (List ℕ × Client))
      → ((k : List ℕ) (client : Client) (t : ℕ)
          → get k l ≡ some client
          → q.timeout (conn client.conn) ≡ some t
          → IsUpTo (poll_timeout q env conn l) t)
        × ((w : ℕ)
            → poll_timeout q env conn l ≡ some w
            → (k : List ℕ) × (client : Client) × Memᴰ (k, client) l
              × (q.timeout (conn client.conn) ≡ some w))
  poll_timeout_least conn l = (poll_timeout-IsUpTo conn l, poll_timeout_of conn l)
