-- ===== src/Sender/Port.antt =====
-- `port_init` of ktsnd.c: the calls of DPDK that set a port up, in their order. What they return is a
-- parameter.
use kuberne_tsn.Common.{
  ℕ, zero, suc, ◌+◌, ◌≡◌, ◌≢◌, refl, ap, min, map, Bool, List, [], ◌∷◌, ◌++◌, arith, true, false,
  if◌then◌else◌, Bool-cases, inl, inr,
}
use kuberne_tsn.Common.Int.{ℤ, pos, negsuc, eqb_ℤ}

-- the calls, with what the source passes to them
pub data Call : Type 0 where
  dev_info_get : Call
  dev_configure : (rx_rings tx_rings : ℕ) → Call
  dev_set_mtu : (mtu : ℕ) → Call
  dev_adjust_descriptors : (nb_rxd nb_txd : ℕ) → Call
  rx_queue_setup : (q nb_rxd : ℕ) → Call
  tx_queue_setup : (q nb_txd : ℕ) → Call
  dev_start : Call

-- what the calls return, and what two of them write: `max_mtu`, and the numbers of descriptors
pub record Port : Type 0 where
  pub valid_port : Bool
  pub info_result : ℤ
  pub max_mtu : ℕ
  pub configure_result : ℤ
  pub mtu_result : ℤ
  pub adjust_result : ℤ
  pub nb_rxd : ℕ
  pub nb_txd : ℕ
  pub rx_result : ℕ → ℤ
  pub tx_result : ℕ → ℤ
  pub start_result : ℤ

-- A call whose result ends the function when it is not 0, and what follows else.
unfoldable pub attempt : Call → ℤ → ℤ × List Call → ℤ × List Call
attempt call retval rest =
    if eqb_ℤ retval (pos 0) then (rest.0, call ∷ rest.1) else (retval, call ∷ [])

-- The loop that sets up `n` queues from `q` on.
unfoldable pub setup_queues : (ℕ → Call) → (ℕ → ℤ) → ℕ → ℕ → ℤ × List Call → ℤ × List Call
setup_queues call result zero q rest = rest
setup_queues call result (suc n) q rest =
    attempt (call q) (result q) (setup_queues call result n (q + 1) rest)

-- `rx_rings` and `tx_rings`
abbrev pub rings : ℕ
rings = 1

unfoldable pub port_init : Port → ℕ → ℤ × List Call
port_init port mtu =
    let start = attempt dev_start port.start_result (pos 0, []) in
    let tx = setup_queues (λ q. tx_queue_setup q port.nb_txd) port.tx_result rings 0 start in
    let rx = setup_queues (λ q. rx_queue_setup q port.nb_rxd) port.rx_result rings 0 tx in
    let adjust = attempt (dev_adjust_descriptors 1024 1024) port.adjust_result rx in
    let set_mtu = attempt (dev_set_mtu (min mtu port.max_mtu)) port.mtu_result adjust in
    let configure = attempt (dev_configure rings rings) port.configure_result set_mtu in
    let info = attempt dev_info_get port.info_result configure in
    if port.valid_port then info else (negsuc 0, [])

-- the calls that set up a port, in their order, each with what it returns
abbrev pub whole_setup : Port → ℕ → List (Call × ℤ)
whole_setup port mtu =
    (dev_info_get, port.info_result)
    ∷ (dev_configure 1 1, port.configure_result)
    ∷ (dev_set_mtu (min mtu port.max_mtu), port.mtu_result)
    ∷ (dev_adjust_descriptors 1024 1024, port.adjust_result)
    ∷ (rx_queue_setup 0 port.nb_rxd, port.rx_result 0)
    ∷ (tx_queue_setup 0 port.nb_txd, port.tx_result 0)
    ∷ (dev_start, port.start_result)
    ∷ []

-- the calls alone, and that each of them returns 0
abbrev pub calls_of : List (Call × ℤ) → List Call
calls_of all = map (λ (c : Call × ℤ). c.0) all

abbrev pub AllZero : List (Call × ℤ) → Type 0
AllZero [] = Unit
AllZero ((call, retval) ∷ rest) = (retval ≡ pos 0) × AllZero rest

-- The calls that are made, and the result: all of them and 0 when each returns 0, else those up to the
-- first that does not, and what it returns.
pub data Ordered (all : List (Call × ℤ)) (out : ℤ × List Call) : Type 0 where
  complete : AllZero all → out.0 ≡ pos 0 → out.1 ≡ calls_of all → Ordered all out
  stopped :
      (before : List (Call × ℤ)) (call : Call) (retval : ℤ) (after : List (Call × ℤ))
      → all ≡ before ++ ((call, retval) ∷ after)
      → AllZero before
      → retval ≢ pos 0
      → out.0 ≡ retval
      → out.1 ≡ calls_of before ++ (call ∷ [])
      → Ordered all out

attempt-Ordered :
    {all : List (Call × ℤ)} {rest : ℤ × List Call} (call : Call) (retval : ℤ)
    → Ordered all rest
    → Ordered ((call, retval) ∷ all) (attempt call retval rest)
unfolding attempt
attempt-Ordered {all} call retval ordered = elim (Bool-cases (eqb_ℤ retval (pos 0))) [
  | inr failed ↦
      rw failed
        (stopped [] call retval all refl tt (λ e. absurd (ground (arith, failed, e))) refl refl)
  | inl ok ↦
      let zero_ret : retval ≡ pos 0 = ground (arith, ok) in
      let more = λ (calls : List Call). call ∷ calls in
      rw ok (elim ordered [
        | complete each result made ↦ complete (zero_ret, each) result (ap more made)
        | stopped before bad badval after split each nonzero result made ↦
            stopped ((call, retval) ∷ before) bad badval after
              (ap (λ cs. (call, retval) ∷ cs) split) (zero_ret, each) nonzero result (ap more made)
      ])
]

-- How `port_init` ends, by whether the port is there.
pub data Ended (port : Port) (mtu : ℕ) (out : ℤ × List Call) : Type 0 where
  no_port : port.valid_port ≡ false → out ≡ (negsuc 0, []) → Ended port mtu out
  tried : port.valid_port ≡ true → Ordered (whole_setup port mtu) out → Ended port mtu out

-- For a valid port, `port_init` makes the calls that set up a port in their order, up to the first that
-- does not return 0, whose result it returns; when each returns 0 it makes them all, the start of the
-- port last, and returns 0. For another port it makes no call and returns -1.
pub port_init-Ended : (port : Port) (mtu : ℕ) → Ended port mtu (port_init port mtu)
unfolding port_init setup_queues
port_init-Ended port mtu = elim (Bool-cases port.valid_port) [
  | inr invalid ↦ no_port invalid (rw invalid refl)
  | inl valid ↦ tried valid (
      rw valid (
        attempt-Ordered dev_info_get port.info_result (
          attempt-Ordered (dev_configure 1 1) port.configure_result (
            attempt-Ordered (dev_set_mtu (min mtu port.max_mtu)) port.mtu_result (
              attempt-Ordered (dev_adjust_descriptors 1024 1024) port.adjust_result (
                attempt-Ordered (rx_queue_setup 0 port.nb_rxd) (port.rx_result 0) (
                  attempt-Ordered (tx_queue_setup 0 port.nb_txd) (port.tx_result 0)
                    (attempt-Ordered dev_start port.start_result (complete tt refl refl)))))))))
]
