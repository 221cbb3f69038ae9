-- ===== src/Preload/Sockets.antt =====
-- The list of sockets in libktsn.c.
use mathlib.Core.Option
use kuberne_tsn.Common.{
  ◌≡◌, refl, ap, ◌∙◌, inl, inr, true, false, Bool-cases, none, some, Option-cases, List, [], ◌∷◌,
  arith, if◌then◌else◌,
}
use kuberne_tsn.Common.Int.{ℤ, pos, negsuc, eqb_ℤ, ltb_ℤ, ◌≤ℤ◌, eq_of_parts}
use kuberne_tsn.Preload.{
  Domain, sol_socket, so_txtime, so_priority, KtSocket, socket_find, socket, update, enter,
  setsockopt, remove, close,
}

-- no two nodes have the same descriptor
abbrev pub IsValid : List KtSocket → Type 0
IsValid [] = Unit
IsValid (sock ∷ sockets) = (socket_find sockets sock.fd ≡ none) × IsValid sockets

eqb_ℤ-refl : (a : ℤ) → eqb_ℤ a a ≡ true
eqb_ℤ-refl a = ground arith

eqb_ℤ-eq : (a b : ℤ) → eqb_ℤ a b ≡ true → a ≡ b
eqb_ℤ-eq a b e = eq_of_parts a b (ground arith)

-- a write that keeps the descriptor
abbrev KeepsFd : (KtSocket → KtSocket) → Type 0
KeepsFd write = (node : KtSocket) → (write node).fd ≡ node.fd

-- After a write the node of the descriptor is the old one, written; the others are as before.
socket_find-update :
    (write : KtSocket → KtSocket) (sockets : List KtSocket) (fd g : ℤ)
    → KeepsFd write
    → socket_find (update write sockets fd) g
      ≡ (if eqb_ℤ fd g then Option.map write (socket_find sockets g) else socket_find sockets g)
unfolding socket_find update
socket_find-update write [] fd g keeps = ground arith
socket_find-update write (sock ∷ sockets) fd g keeps =
    ground (arith, keeps sock, socket_find-update write sockets fd g keeps)

socket_find-remove_other :
    (sockets : List KtSocket) (fd g : ℤ)
    → eqb_ℤ fd g ≡ false
    → socket_find (remove sockets fd) g ≡ socket_find sockets g
unfolding socket_find remove
socket_find-remove_other [] fd g ne = refl
socket_find-remove_other (sock ∷ sockets) fd g ne =
    ground (arith, socket_find-remove_other sockets fd g ne)

socket_find-remove :
    (sockets : List KtSocket) (fd : ℤ) → IsValid sockets → socket_find (remove sockets fd) fd ≡ none
unfolding socket_find remove
socket_find-remove [] fd v = refl
socket_find-remove (sock ∷ sockets) fd v = elim (Bool-cases (eqb_ℤ sock.fd fd)) [
  | inl same ↦ rw same (rw (eqb_ℤ-eq sock.fd fd same) at v.0)
  | inr other ↦ rw (other, other) (socket_find-remove sockets fd v.1)
]

update-IsValid :
    (write : KtSocket → KtSocket) (sockets : List KtSocket) (fd : ℤ)
    → KeepsFd write
    → IsValid sockets
    → IsValid (update write sockets fd)
unfolding update
update-IsValid write [] fd keeps v = tt
update-IsValid write (sock ∷ sockets) fd keeps v = elim (Bool-cases (eqb_ℤ sock.fd fd)) [
  | inl same ↦ rw same (rw (keeps sock) v.0, v.1)
  | inr other ↦ rw other (
    socket_find-update write sockets fd sock.fd keeps ∙ rw v.0 (ground arith),
    update-IsValid write sockets fd keeps v.1,
  )
]

remove-IsValid : (sockets : List KtSocket) (fd : ℤ) → IsValid sockets → IsValid (remove sockets fd)
unfolding remove
remove-IsValid [] fd v = tt
remove-IsValid (sock ∷ sockets) fd v = elim (Bool-cases (eqb_ℤ sock.fd fd)) [
  | inl same ↦ rw same v.1
  | inr other ↦ rw other (
    socket_find-remove_other sockets fd sock.fd (ground (arith, other)) ∙ v.0,
    remove-IsValid sockets fd v.1,
  )
]

-- A valid list in which the descriptor has a node that fits `P`, and the others are as in the old one.
pub record Entered (sockets sockets' : List KtSocket) (fd : ℤ) (P : KtSocket → Type 0)
    : Type 0 where
  pub valid : IsValid sockets'
  pub node : KtSocket
  pub registered : socket_find sockets' fd ≡ some node
  pub fits : P node
  pub others : (g : ℤ) → eqb_ℤ fd g ≡ false → socket_find sockets' g ≡ socket_find sockets g

cons-Entered :
    (sockets : List KtSocket) (node : KtSocket) (fd : ℤ) (P : KtSocket → Type 0)
    → node.fd ≡ fd
    → IsValid sockets
    → socket_find sockets fd ≡ none
    → P node
    → Entered sockets (node ∷ sockets) fd P
unfolding socket_find
cons-Entered sockets node fd P e v missing fits =
    let same : eqb_ℤ node.fd fd ≡ true = rw e (eqb_ℤ-refl fd) in
    record {
      valid = (ap (socket_find sockets) e ∙ missing, v);
      node = node;
      registered = rw same refl;
      fits = fits;
      others = λ g ne. let other : eqb_ℤ node.fd g ≡ false = rw e ne in rw other refl;
    }

enter-Entered :
    (write : KtSocket → KtSocket) (unset : Domain) (sockets : List KtSocket) (fd : ℤ)
    (P : KtSocket → Type 0)
    → KeepsFd write
    → ((node : KtSocket) → P (write node))
    → IsValid sockets
    → Entered sockets (enter write unset sockets fd) fd P
unfolding enter
enter-Entered write unset sockets fd P keeps holds v =
    elim (Option-cases (socket_find sockets fd)) [
      | inl missing ↦
          let node : KtSocket = record { fd = fd; prio = negsuc 0; txtime = 0; domain = unset } in
          rw (missing, enter)
            (cons-Entered sockets (write node) fd P (keeps node) v missing (holds node))
      | inr (node, found) ↦
          rw (found, enter)
            record {
              valid = update-IsValid write sockets fd keeps v;
              node = write node;
              registered =
                  socket_find-update write sockets fd fd keeps ∙ rw (eqb_ℤ-refl fd, found) refl;
              fits = holds node;
              others = λ g ne. socket_find-update write sockets fd g keeps ∙ rw ne refl;
            }
    ]

-- `setsockopt` with SO_TXTIME or SO_PRIORITY returns 0 and leaves one node of the descriptor, made if
-- it had none, with a send time or with the priority; the other sockets keep their nodes.
pub setsockopt_correct :
    (default_result : ℤ) (unset : Domain) (fd optval : ℤ) (sockets : List KtSocket)
    → IsValid sockets
    → let timed = setsockopt default_result unset fd sol_socket so_txtime optval sockets in
      let ranked = setsockopt default_result unset fd sol_socket so_priority optval sockets in
      (timed.0 ≡ pos 0)
      × Entered sockets timed.1 fd (λ node. node.txtime ≡ 1)
      × (ranked.0 ≡ pos 0)
      × Entered sockets ranked.1 fd (λ node. node.prio ≡ optval)
unfolding setsockopt
setsockopt_correct default_result unset fd optval sockets v = (
  refl,
  enter-Entered (λ node. record node { txtime = 1 }) unset sockets fd (λ node. node.txtime ≡ 1)
      (λ node. refl) (λ node. refl) v,
  refl,
  enter-Entered (λ node. record node { prio = optval }) unset sockets fd
      (λ node. node.prio ≡ optval) (λ node. refl) (λ node. refl) v,
)

-- `socket` leaves one node of a descriptor that the C library opened; the other sockets keep theirs.
-- It ends without a return value.
pub socket_correct :
    (fd : ℤ) (domain : Domain) (sockets : List KtSocket)
    → IsValid sockets
    → pos 0 ≤ℤ fd
    → ((socket fd domain sockets).0 ≡ none)
      × Entered sockets (socket fd domain sockets).1 fd (λ node. Unit)
unfolding socket
socket_correct fd domain sockets v opened =
    let test : ltb_ℤ fd (pos 0) ≡ false = ground arith in
    elim (Option-cases (socket_find sockets fd)) [
      | inl missing ↦
          let node : KtSocket = record { fd = fd; prio = negsuc 0; txtime = 0; domain = domain } in
          rw (test, missing, socket)
            (refl, cons-Entered sockets node fd (λ n. Unit) refl v missing tt)
      | inr (node, found) ↦
          rw (test, found, socket)
            (
              refl,
              record {
                valid = v;
                node = node;
                registered = found;
                fits = tt;
                others = λ g ne. refl;
              },
            )
    ]

-- `close` returns what the C library's returns; the descriptor has no node afterwards, and the other
-- sockets keep theirs.
pub close_correct :
    (default_result : ℤ) (sockets : List KtSocket) (fd : ℤ)
    → IsValid sockets
    → let (result, sockets') = close default_result sockets fd in
      (result ≡ default_result)
      × IsValid sockets'
      × (socket_find sockets' fd ≡ none)
      × ((g : ℤ) → eqb_ℤ fd g ≡ false → socket_find sockets' g ≡ socket_find sockets g)
unfolding close
close_correct default_result sockets fd v = elim (Option-cases (socket_find sockets fd)) [
  | inl missing ↦ rw (missing, close) (refl, v, missing, λ g ne. refl)
  | inr (node, found) ↦
      rw (found, close)
        (
          refl,
          remove-IsValid sockets fd v,
          socket_find-remove sockets fd v,
          λ g ne. socket_find-remove_other sockets fd g ne,
        )
]
