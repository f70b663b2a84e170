-- ===== src/Socket/States.antt =====
-- The states that a socket of saturn/socket.cc can reach.
use saturn.Base.{
  ℕ, ◌≡◌, refl, sym, ap, subst, ◌∙◌, inl, inr, Bool, true, false, not, ◌&&◌, Bool-cases, Option,
  none, some, Option-cases, ◌==◌, if◌then◌else◌,
}
use mathlib.Core.Option.{some-injective}
use saturn.Socket.{
  SockAddr, Socket, Calls, new_socket, is_valid, new_sock, create_tcp, get_remote_address,
  get_local_address, made_valid, bind, close, connect, init, accept,
}

-- A socket that is connected has a descriptor.
abbrev pub HasDescriptor : Socket → Type 0
HasDescriptor s = s.connected ≡ true → is_valid s ≡ true

-- An operation of a socket.
pub data Step : Socket → Socket → Type 0 where
  binds : (addr : SockAddr) (c : Calls) (s : Socket) → Step s (bind addr c s).1
  connects : (addr : SockAddr) (c : Calls) (s : Socket) → Step s (connect addr c s).1
  closes : (s : Socket) → Step s (close s).2
  asks_local : (c : Calls) (s : Socket) → Step s (get_local_address c s).1
  asks_remote : (c : Calls) (s : Socket) → Step s (get_remote_address c s).1

-- What can become of a socket that `CreateTCP` or one of its kin makes, or `accept`.
pub data Reached : Socket → Type 0 where
  created : (family : ℕ) → Reached (create_tcp family)
  accepted :
      (newsock : Option ℕ) (is_open : Bool) (c : Calls) (s s' : Socket)
      → accept newsock is_open c s ≡ some s'
      → Reached s'
  stepped : (s s' : Socket) → Reached s → Step s s' → Reached s'

get_local_address-same :
    (c : Calls) (s : Socket)
    → ((get_local_address c s).1.connected ≡ s.connected)
      × ((get_local_address c s).1.descriptor ≡ s.descriptor)
unfolding get_local_address
get_local_address-same c s = elim (Option-cases s.local_address) [
  | inr (a, e) ↦ rw (e, get_local_address) (refl, refl)
  | inl e ↦ elim (Option-cases c.sock_name) [
    | inl e' ↦ rw (e, e', get_local_address) (refl, refl)
    | inr (a, e') ↦ rw (e, e', get_local_address) (refl, refl)
  ]
]

get_remote_address-same :
    (c : Calls) (s : Socket)
    → ((get_remote_address c s).1.connected ≡ s.connected)
      × ((get_remote_address c s).1.descriptor ≡ s.descriptor)
unfolding get_remote_address
get_remote_address-same c s = elim (Option-cases s.remote_address) [
  | inr (a, e) ↦ rw (e, get_remote_address) (refl, refl)
  | inl e ↦ elim (Option-cases c.peer_name) [
    | inl e' ↦ rw (e, e', get_remote_address) (refl, refl)
    | inr (a, e') ↦ rw (e, e', get_remote_address) (refl, refl)
  ]
]

-- Two sockets with the same flag and descriptor.
HasDescriptor-same :
    (s s' : Socket)
    → (s'.connected ≡ s.connected) × (s'.descriptor ≡ s.descriptor)
    → HasDescriptor s
    → HasDescriptor s'
unfolding is_valid
HasDescriptor-same s s' (e, e') h c = ap valid e' ∙ h (sym e ∙ c)
  where
    valid : Option ℕ → Bool
    valid o = elim o [ none ↦ false | some fd ↦ true ]

made_valid-HasDescriptor :
    (c : Calls) (s : Socket) → HasDescriptor s → HasDescriptor (made_valid c s)
unfolding made_valid new_sock
made_valid-HasDescriptor c s h = elim (Bool-cases (is_valid s)) [
  | inl y ↦ rw (y, made_valid) h
  | inr n ↦ rw (n, made_valid) (λ e. absurd (let v = h e in cc))
]

-- What holds of both branches of a test, where it comes out so.
if-both {ℓ κ} :
    {A : Type ℓ} (P : A → Type κ) (b : Bool) (x y : A)
    → (b ≡ true → P x)
    → (b ≡ false → P y)
    → P (if b then x else y)
if-both P true x y h k = h refl
if-both P false x y h k = k refl

bind-HasDescriptor :
    (addr : SockAddr) (c : Calls) (s : Socket) → HasDescriptor s → HasDescriptor (bind addr c s).1
unfolding bind
bind-HasDescriptor addr c s h =
    let s' = made_valid c s in
    let k = made_valid-HasDescriptor c s h in
    if-both (λ (r : Bool × Socket). HasDescriptor r.1) (not (is_valid s')) _ _ (λ _. k)
      (λ _.
        if-both (λ (r : Bool × Socket). HasDescriptor r.1) (not (addr.family == s'.family)) _ _
          (λ _. k)
          (λ _.
            if-both (λ (r : Bool × Socket). HasDescriptor r.1) (not c.bind) _ _ (λ _. k)
              (λ _.
                HasDescriptor-same s' (get_local_address c s').1 (get_local_address-same c s') k)))

close-HasDescriptor : (s : Socket) → HasDescriptor s → HasDescriptor (close s).2
unfolding close
close-HasDescriptor s h = elim (Bool-cases (not s.connected && not (is_valid s))) [
  | inl y ↦ rw (y, close) h
  | inr n ↦ rw (n, close) (λ e. absurd cc)
]

connect-HasDescriptor :
    (addr : SockAddr) (c : Calls) (s : Socket)
    → HasDescriptor s
    → HasDescriptor (connect addr c s).1
unfolding connect is_valid
connect-HasDescriptor addr c s h =
    let s' = made_valid c (record s { remote_address = some addr }) in
    let k = made_valid-HasDescriptor c (record s { remote_address = some addr }) (named s h) in
    let s₁ = (get_remote_address c (record s' { connected = true })).1 in
    if-both (λ (r : Bool × Socket). HasDescriptor r.1) (not (is_valid s')) _ _ (λ _. k)
      (λ v.
        if-both (λ (r : Bool × Socket). HasDescriptor r.1) (not (addr.family == s'.family)) _ _
          (λ _. k)
          (λ _.
            if-both (λ (r : Bool × Socket). HasDescriptor r.1) (not c.connect) _ _
              (λ _. close-HasDescriptor s' k)
              (λ _. HasDescriptor-same s₁ (get_local_address c s₁).1 (get_local_address-same c s₁) (
                HasDescriptor-same (record s' { connected = true }) s₁
                  (get_remote_address-same c (record s' { connected = true }))
                  (λ _. valid s' (not-false (is_valid s') v))))))
  where
    not-false : (b : Bool) → not b ≡ false → b ≡ true
    not-false true e = refl
    not-false false e = absurd cc

    named : (s : Socket) → HasDescriptor s → HasDescriptor (record s { remote_address = some addr })
    named s h = h

    valid : (s : Socket) → is_valid s ≡ true → is_valid (record s { connected = true }) ≡ true
    valid s e = e

init-HasDescriptor :
    (fd : ℕ) (is_open : Bool) (c : Calls) (s : Socket)
    → HasDescriptor s
    → HasDescriptor (init fd is_open c s).1
unfolding init is_valid
init-HasDescriptor fd false c s h = h
init-HasDescriptor fd true c s h =
    let s₀ = record s { descriptor = some fd; connected = true } in
    let s₁ = (get_local_address c s₀).1 in
    HasDescriptor-same s₁ (get_remote_address c s₁).1 (get_remote_address-same c s₁)
      (HasDescriptor-same s₀ s₁ (get_local_address-same c s₀) (λ _. refl))

accept-HasDescriptor :
    (newsock : Option ℕ) (is_open : Bool) (c : Calls) (s s' : Socket)
    → accept newsock is_open c s ≡ some s'
    → HasDescriptor s'
unfolding accept init new_socket
accept-HasDescriptor none is_open c s s' e = absurd cc
accept-HasDescriptor (some fd) false c s s' e = absurd cc
accept-HasDescriptor (some fd) true c s s' e =
    subst HasDescriptor (some-injective _ s' e)
      (init-HasDescriptor fd true c (new_socket s.family s.type s.protocol) (λ x. absurd cc))

-- A socket that `CreateTCP` or one of its kin has made, or `accept`, has a descriptor whenever it says that it
-- is connected, whatever operations follow and whatever the system calls return in them.
pub Reached-HasDescriptor : (s : Socket) → Reached s → HasDescriptor s
unfolding create_tcp new_socket
Reached-HasDescriptor _ (created family) = λ e. absurd cc
Reached-HasDescriptor _ (accepted newsock is_open c s s' e) =
    accept-HasDescriptor newsock is_open c s s' e
Reached-HasDescriptor _ (stepped s s' r step) = keeps s s' step (Reached-HasDescriptor s r)
  where
    keeps : (s s' : Socket) → Step s s' → HasDescriptor s → HasDescriptor s'
    keeps _ _ (binds addr c s) h = bind-HasDescriptor addr c s h
    keeps _ _ (connects addr c s) h = connect-HasDescriptor addr c s h
    keeps _ _ (closes s) h = close-HasDescriptor s h
    keeps _ _ (asks_local c s) h =
        HasDescriptor-same s (get_local_address c s).1 (get_local_address-same c s) h
    keeps _ _ (asks_remote c s) h =
        HasDescriptor-same s (get_remote_address c s).1 (get_remote_address-same c s) h
