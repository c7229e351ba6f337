-- ===== src/System/Sound.antt =====
-- The invariant of a server and of the connections that `dtp_accept` of src/ffi.rs hands out, and the
-- steps that leave both alone.
use nanwei_api_rust.Prelude.{
  ℕ, ◌<◌, ◌≤◌, ◌≡◌, ◌⊎◌, refl, sym, ◌∙◌, Bool, true, false, List, [], ◌∷◌, Option, none, some,
  arith, Option-cases, inl, inr, ◌==◌, ◌||◌, nat_eq, bytes_eq,
}
use nanwei_api_rust.Prelude.Map.{get, insert, IsUnique, insert-IsUnique}
use nanwei_api_rust.Quiche.{Quiche}
use nanwei_api_rust.World.{ClientStatus, connected, close, SharedStreams}
use nanwei_api_rust.Server.Packet.Tracked.{Tracked, IsListed}
use nanwei_api_rust.Ffi.Close.{mark_close}
use nanwei_api_rust.Ffi.Close.Branches.{closed_entry, get-mark_close}
use nanwei_api_rust.System.{System, Start}

-- There is no entry, or it is closed.
abbrev pub IsGone : Option (ℕ × ClientStatus) → Type 0
IsGone none = Unit
IsGone (some entry) = entry.1 ≡ close

abbrev pub elem : ℕ → List ℕ → Bool
elem c [] = false
elem c (d ∷ l) = c == d || elem c l

abbrev pub AllDistinct : List ℕ → Type 0
AllDistinct [] = Unit
AllDistinct (c ∷ l) = (elem c l ≡ false) × AllDistinct l

pub record Sound {Conn : Type 0} (q : Quiche Conn) (sys : System Conn) : Type 0 where
  pub tracked : Tracked q sys.server
  pub unique : IsUnique sys.server.client_status
  pub allocated : sys.shared < sys.server.next_conn
  -- The connections of the entries are in use, and no two entries have the same one.
  pub in_use :
      (k : List ℕ) (c : ℕ) (st : ClientStatus)
      → get k sys.server.client_status ≡ some (c, st)
      → c < sys.server.next_conn
  pub apart :
      (k j : List ℕ) (c : ℕ) (a b : ClientStatus)
      → get k sys.server.client_status ≡ some (c, a)
      → get j sys.server.client_status ≡ some (c, b)
      → k ≡ j
  -- Without a client there is no entry but a closed one.
  pub departed :
      (k : List ℕ) → get k sys.server.clients ≡ none → IsGone (get k sys.server.client_status)
  -- What has been handed out is in use, is not waiting, and is not handed out twice.
  pub given_in_use : (c : ℕ) → elem c sys.given ≡ true → c < sys.server.next_conn
  pub not_waiting :
      (k : List ℕ) (c : ℕ)
      → get k sys.server.client_status ≡ some (c, connected)
      → elem c sys.given ≡ false
  pub once : AllDistinct sys.given

-- What the calls that do not work on the status map leave: the connections in use keep their ids.
pub record Kept {Conn : Type 0} (q : Quiche Conn) (conn conn' : ℕ → Conn) (n n' : ℕ) : Type 0 where
  pub ids : (r : ℕ) → r < n → q.source_id (conn' r) ≡ q.source_id (conn r)
  pub grows : n ≤ n'

-- The status map after a call other than `dtp_accept`.
pub data Demoted (m : SharedStreams) : SharedStreams → Type 0 where
  left : Demoted m m
  marked : (id : List ℕ) → Demoted m (mark_close id m)

-- An entry after such a call.
abbrev DemotedEntry : Option (ℕ × ClientStatus) → Option (ℕ × ClientStatus) → Type 0
DemotedEntry o o' =
    (o' ≡ o) ⊎ ((c : ℕ) × (st : ClientStatus) × (o ≡ some (c, st)) × (o' ≡ some (c, close)))

closed_entry-DemotedEntry :
    (b : Bool) (o : Option (ℕ × ClientStatus)) → DemotedEntry o (closed_entry b o)
closed_entry-DemotedEntry true none = inl refl
closed_entry-DemotedEntry true (some (c, st)) = inr (c, st, refl, refl)
closed_entry-DemotedEntry false none = inl refl
closed_entry-DemotedEntry false (some entry) = inl refl

pub Demoted-get :
    (m m' : SharedStreams) (k : List ℕ) → Demoted m m' → DemotedEntry (get k m) (get k m')
Demoted-get m _ k left = inl refl
Demoted-get m _ k (marked id) =
    rw (get-mark_close id k m) (closed_entry-DemotedEntry (id == k) (get k m))

Demoted-IsUnique : (m m' : SharedStreams) → Demoted m m' → IsUnique m → IsUnique m'
unfolding mark_close
Demoted-IsUnique m _ left u = u
Demoted-IsUnique m _ (marked id) u = elim (Option-cases (get id m)) [
  | inl e ↦ let now : mark_close id m ≡ m = ground arith in rw now u
  | inr (entry, e) ↦
      let now : mark_close id m ≡ insert id (entry.0, close) m = ground arith in
      rw now (insert-IsUnique id (entry.0, close) m u)
]

DemotedEntry-IsListed :
    (o o' : Option (ℕ × ClientStatus)) (c : ℕ) → DemotedEntry o o' → IsListed o c → IsListed o' c
DemotedEntry-IsListed o o' c (inl e) h = rw e h
DemotedEntry-IsListed o o' c (inr (d, st, e, e')) h = rw e' (rw e at h)

DemotedEntry-IsGone : (o o' : Option (ℕ × ClientStatus)) → DemotedEntry o o' → IsGone o → IsGone o'
DemotedEntry-IsGone o o' (inl e) h = rw e h
DemotedEntry-IsGone o o' (inr (d, st, e, e')) h = rw e' refl

module _ {Conn : Type 0} (q : Quiche Conn) where
  -- Calls other than `dtp_accept` keep the invariant.
  pub Sound-Demoted :
      (sys sys' : System Conn)
      → Sound q sys
      → Kept q sys.server.conn sys'.server.conn sys.server.next_conn sys'.server.next_conn
      → Demoted sys.server.client_status sys'.server.client_status
      → sys'.server.clients ≡ sys.server.clients
      → sys'.given ≡ sys.given
      → sys'.shared ≡ sys.shared
      → Sound q sys'
  Sound-Demoted sys sys' i kept dem cs gs sh =
      let at = λ (k : List ℕ). Demoted-get _ _ k dem in
      record {
        tracked = record {
          unique = rw cs i.tracked.unique;
          own_id = λ k cl h.
              let h' : get k sys.server.clients ≡ some cl = ground arith in
              kept.ids cl.conn (i.tracked.known k cl h') ∙ i.tracked.own_id k cl h';
          listed = λ k cl h.
              DemotedEntry-IsListed _ _ cl.conn (at k) (i.tracked.listed k cl (ground arith));
          known = λ k cl h. ground (arith, i.tracked.known k cl, kept.grows);
        };
        unique = Demoted-IsUnique _ _ dem i.unique;
        allocated = ground (arith, i.allocated, kept.grows);
        in_use = λ k c st h. elim (at k) [
          | inl e ↦ ground (arith, i.in_use k c st, kept.grows)
          | inr (d, old, e, e') ↦ ground (arith, i.in_use k d old, kept.grows)
        ];
        apart = λ k j c a b h g. elim (at k) [
          | inl e ↦ elim (at j) [
            | inl f ↦ i.apart k j c a b (sym e ∙ h) (sym f ∙ g)
            | inr (d, old, f, f') ↦ i.apart k j c a old (sym e ∙ h) (ground arith)
          ]
          | inr (d, old, e, e') ↦ elim (at j) [
            | inl f ↦ i.apart k j c old b (ground arith) (sym f ∙ g)
            | inr (d', old', f, f') ↦ i.apart k j c old old' (ground arith) (ground arith)
          ]
        ];
        departed = λ k h. DemotedEntry-IsGone _ _ (at k) (i.departed k (ground arith));
        given_in_use = λ c h. ground (arith, i.given_in_use c, kept.grows);
        not_waiting = λ k c h. elim (at k) [
          | inl e ↦ rw gs (i.not_waiting k c (sym e ∙ h))
          | inr (d, old, e, e') ↦ absurd (ground arith)
        ];
        once = rw gs i.once;
      }

  pub Start-Sound : (sys : System Conn) → Start sys → Sound q sys
  unfolding get
  Start-Sound sys s =
      let none_yet : (k : List ℕ) → get k sys.server.clients ≡ none = λ k. rw s.no_clients refl in
      let no_entry : (k : List ℕ) → get k sys.server.client_status ≡ none =
        λ k. rw s.no_status refl in
      record {
        tracked = record {
          unique = rw s.no_clients tt;
          own_id = λ k cl h. absurd (ground (arith, none_yet k));
          listed = λ k cl h. absurd (ground (arith, none_yet k));
          known = λ k cl h. absurd (ground (arith, none_yet k));
        };
        unique = rw s.no_status tt;
        allocated = s.allocated;
        in_use = λ k c st h. absurd (ground (arith, no_entry k));
        apart = λ k j c a b h g. absurd (ground (arith, no_entry k));
        departed = λ k h. rw (no_entry k) tt;
        given_in_use = λ c h. let h' = rw s.none_given at h in absurd (ground arith);
        not_waiting = λ k c h. absurd (ground (arith, no_entry k));
        once = rw s.none_given tt;
      }
