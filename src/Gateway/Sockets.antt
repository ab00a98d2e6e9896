-- ===== src/Gateway/Sockets.antt =====
-- The sockets of the gateway (src/realtime/realtime.gateway.ts): the handshake of a connection, and
-- the room of a user as the sockets that have joined it. The verification of a token is a
-- parameter; `none` where it throws.
use Prim.Native.Char.{code}
use Prim.Native.String.append
use Prim.Native.String.{◌++◌ as str_append}
use text.Mathlib.Text.{◌==◌ as str_eq}
use reedri_end.Base.{
  ℕ, ◌≡◌, refl, Bool, true, ◌&&◌, ◌⊎◌, All-mono, false, Option, none, some, List, [], ◌∷◌, ◌++◌,
  String, ◌==◌, if◌then◌else◌, map_option, arith, ap, sym, ◌∙◌, All, All-append, Option-cases, inl,
  inr, subst, ==_refl,
}
use reedri_end.Table.{find_first, delete_many, any}
use reedri_end.Table.Any.{All-delete_many}
use reedri_end.Schema.{Uuid}
use reedri_end.World.{World}
use reedri_end.Queue.{JobQueue}
use reedri_end.Gateway.{Gateway, handle_disconnect}

-- What a client sends to be let in.
pub record Handshake : Type 0 where
  pub auth_token : Option String
  pub authorization : Option String

abbrev pub drop_prefix : (prefix s : String) → Option String
drop_prefix String.[] s = some s
drop_prefix (String.◌∷◌ c p) String.[] = none
drop_prefix (String.◌∷◌ c p) (String.◌∷◌ d s) =
    let rest = drop_prefix p s in if code c == code d then rest else none

-- `String.replace(pattern, '')`, which removes the first occurrence.
abbrev pub remove_first : (pattern s : String) → String
remove_first p String.[] = String.[]
remove_first p (String.◌∷◌ c s) = elim (drop_prefix p (String.◌∷◌ c s)) [
  | some rest ↦ rest
  | none ↦ String.◌∷◌ c (remove_first p s)
]

abbrev pub or_else {ℓ} : {A : Type ℓ} → Option A → Option A → Option A
or_else none b = b
or_else (some a) b = some a

-- An empty text counts as no token.
abbrev pub nonempty : Option String → Option String
nonempty none = none
nonempty (some t) = if str_eq t "" then none else some t

-- `extractToken`; `none` where it throws.
unfoldable pub extract_token : Handshake → Option String
extract_token h =
    nonempty (or_else h.auth_token (map_option (remove_first "Bearer ") h.authorization))

-- A socket that is open and in the room of its user.
pub record Socket : Type 0 where
  pub socket_id : ℕ
  pub user_id : Uuid

-- What happens to the sockets.
pub data SocketEvent : Type 0 where
  opens : (socket_id : ℕ) → Handshake → SocketEvent
  closes : (socket_id : ℕ) → SocketEvent

-- One socket in one room.
abbrev pub same_socket : Socket → Socket → Bool
same_socket s x = x.socket_id == s.socket_id && x.user_id == s.user_id

known-All : (xs : List Socket) → All (λ s. any (same_socket s) xs ≡ true) xs
unfolding any
known-All [] = tt
known-All (x ∷ xs) = (
  ground (arith, ==_refl x.socket_id, ==_refl x.user_id),
  All-mono (λ s. any (same_socket s) xs ≡ true) (λ s. any (same_socket s) (x ∷ xs) ≡ true)
      (λ s h. ground (arith, h)) xs (known-All xs),
)

pub record Hub : Type 0 where
  pub sockets : List Socket
  pub gateway : Gateway
  pub world : World

drop_prefix-append : (p s : String) → drop_prefix p (str_append p s) ≡ some s
drop_prefix-append String.[] s = ap some (append.nil s)
drop_prefix-append (String.◌∷◌ c p) s =
    ap (drop_prefix (String.◌∷◌ c p)) (append.cons c p s)
    ∙ ground (arith, drop_prefix-append p s, ==_refl (code c))

-- A pattern in front is the first occurrence.
remove_first-append : (p s : String) → remove_first p (str_append p s) ≡ s
remove_first-append String.[] String.[] = refl
remove_first-append String.[] (String.◌∷◌ c s) =
    ap (remove_first String.[]) (append.nil (String.◌∷◌ c s))
remove_first-append (String.◌∷◌ c p) s =
    ap (remove_first (String.◌∷◌ c p)) (append.cons c p s)
    ∙ ground (arith, drop_prefix-append p s, ==_refl (code c))

module _ (verify : String → Option Uuid) where
  -- The user whose room the socket joins; `none` where the socket is told `Unauthorized` and closed.
  unfoldable pub handshake_user : Handshake → Option Uuid
  handshake_user h = elim (extract_token h) [ none ↦ none | some token ↦ verify token ]

  -- `handleConnection`
  unfoldable pub handle_connection : ℕ → Handshake → List Socket → List Socket
  handle_connection socket_id h sockets = elim (handshake_user h) [
    | none ↦ sockets
    | some u ↦ sockets ++ record { socket_id = socket_id; user_id = u } ∷ []
  ]

  -- A socket opened with a token, and the token was verified as the user's whose room it is in.
  abbrev pub IsLetIn : ℕ → Handshake → Socket → Type 0
  IsLetIn i h s =
      (s.socket_id ≡ i)
      × ((token : String) × (extract_token h ≡ some token) × (verify token ≡ some s.user_id))

  -- One of the events opened the socket so.
  abbrev pub WasLetIn : List SocketEvent → Socket → Type 0
  WasLetIn [] s = ⊥
  WasLetIn (opens i h ∷ es) s = IsLetIn i h s ⊎ WasLetIn es s
  WasLetIn (closes i ∷ es) s = WasLetIn es s

  connection-All :
      (P : Socket → Type 0) (i : ℕ) (h : Handshake) (sockets : List Socket)
      → All P sockets
      → All (λ s. IsLetIn i h s ⊎ P s) (handle_connection i h sockets)
  unfolding handle_connection handshake_user
  connection-All P i h sockets before =
      let Q : Socket → Type 0 = λ s. IsLetIn i h s ⊎ P s in
      let old : All Q sockets = All-mono P Q (λ s p. inr p) sockets before in
      elim (Option-cases (extract_token h)) [
        | inl e ↦
            (let same : handle_connection i h sockets ≡ sockets = ground (arith, e) in
              subst (All Q) (sym same) old)
        | inr (token, e) ↦ elim (Option-cases (verify token)) [
          | inl f ↦
              (let same : handle_connection i h sockets ≡ sockets = ground (arith, e, f) in
                subst (All Q) (sym same) old)
          | inr (u, f) ↦
              let s : Socket = record { socket_id = i; user_id = u } in
              let same : handle_connection i h sockets ≡ sockets ++ s ∷ [] = ground (arith, e, f) in
              subst (All Q) (sym same)
                (All-append Q sockets (s ∷ []) old (inl (refl, (token, e, f)), tt))
        ]
      ]

  module _ (queue : JobQueue) (offer_expiry_seconds : ℕ) where
    -- A socket that closes has left its room when `handleDisconnect` is called.
    unfoldable pub close_socket : ℕ → Hub → Hub
    close_socket i hub =
        let rest = delete_many (λ (s : Socket). s.socket_id == i) hub.sockets in
        elim (find_first (λ (s : Socket). s.socket_id == i) hub.sockets) [
          | none ↦ hub
          | some s ↦
              let (g, w) =
                handle_disconnect queue offer_expiry_seconds s.user_id
                  (any (λ (x : Socket). x.user_id == s.user_id) rest) hub.gateway hub.world in
              record { sockets = rest; gateway = g; world = w }
        ]

    unfoldable pub run_sockets : List SocketEvent → Hub → Hub
    run_sockets [] hub = hub
    run_sockets (opens i h ∷ es) hub =
        run_sockets es (record hub { sockets = handle_connection i h hub.sockets })
    run_sockets (closes i ∷ es) hub = run_sockets es (close_socket i hub)

    close-All :
        (P : Socket → Type 0) (i : ℕ) (hub : Hub)
        → All P hub.sockets
        → All P (close_socket i hub).sockets
    unfolding close_socket
    close-All P i hub h =
        elim (Option-cases (find_first (λ (s : Socket). s.socket_id == i) hub.sockets)) [
          | inl e ↦
              (let same : (close_socket i hub).sockets ≡ hub.sockets = ground (arith, e) in
                subst (All P) (sym same) h)
          | inr (s, e) ↦
              let same : (close_socket i hub).sockets
                  ≡ delete_many (λ (x : Socket). x.socket_id == i) hub.sockets =
                ground (arith, e) in
              subst (All P) (sym same)
                (All-delete_many (λ (x : Socket). x.socket_id == i) P hub.sockets h)
        ]

    run-All :
        (P : Socket → Type 0) (es : List SocketEvent) (hub : Hub)
        → All P hub.sockets
        → All (λ s. WasLetIn es s ⊎ P s) (run_sockets es hub).sockets
    unfolding run_sockets
    run-All P [] hub h = All-mono P (λ s. ⊥ ⊎ P s) (λ s p. inr p) hub.sockets h
    run-All P (opens i x ∷ es) hub h =
        All-mono (λ s. WasLetIn es s ⊎ (IsLetIn i x s ⊎ P s))
          (λ s. (IsLetIn i x s ⊎ WasLetIn es s) ⊎ P s)
          (λ s known. elim known [
            | inl later ↦ inl (inr later)
            | inr (inl now) ↦ inl (inl now)
            | inr (inr p) ↦ inr p
          ])
          (run_sockets es (record hub { sockets = handle_connection i x hub.sockets })).sockets
          (run-All (λ s. IsLetIn i x s ⊎ P s) es
            (record hub { sockets = handle_connection i x hub.sockets })
            (connection-All P i x hub.sockets h))
    run-All P (closes i ∷ es) hub h = run-All P es (close_socket i hub) (close-All P i hub h)

    -- However sockets open and close, each socket that is in a room at the end and was not in the
    -- same one at the start was opened by one of the handshakes, and the token of this very
    -- handshake was verified as the user's whose room it is.
    pub run_sockets-WasLetIn :
        (es : List SocketEvent) (hub : Hub)
        → All
            (λ s. WasLetIn es s ⊎ (any (same_socket s) hub.sockets ≡ true))
            (run_sockets es hub).sockets
    run_sockets-WasLetIn es hub =
        run-All (λ s. any (same_socket s) hub.sockets ≡ true) es hub (known-All hub.sockets)

  -- A client with a token that is not empty is let in exactly where the token is verified, as the
  -- user whose it is, be the token given as such, whatever the header is, or in the header after
  -- `Bearer `.
  handshake_user-token :
      (token : String) (other : Option String)
      → str_eq token "" ≡ false
      → (handshake_user (record { auth_token = some token; authorization = other }) ≡ verify token)
        × (handshake_user
              (record { auth_token = none; authorization = some (str_append "Bearer " token) })
            ≡ verify token)
  unfolding handshake_user extract_token
  handshake_user-token token other full =
      (ground (arith, full), ground (arith, full, remove_first-append "Bearer " token))
