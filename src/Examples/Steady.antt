-- ===== src/Examples/Steady.antt =====
-- The input poll, the replies and the frame hook at concrete values.
use cfp2dreamcast.Base.{ℕ, ◌+◌, ◌≡◌, refl, inl, false, arith}
use cfp2dreamcast.Iface.{p2addr}
use cfp2dreamcast.Machine.{ℤ, pos, Machine, M, Never, Runs, returns}
use cfp2dreamcast.Machine.Memory.{Ram, store8, store32, copy_in}
use cfp2dreamcast.Shim.Ladder.{mie_probe_reply}
use cfp2dreamcast.Machine.Store.{Misses}
use cfp2dreamcast.Shim.Ladder.Answer.{Answers, mie_probe_reply-Answers}
use cfp2dreamcast.Shim.Captures.{set_address}
use cfp2dreamcast.Shim.Reply.{maple_reply}
use cfp2dreamcast.Shim.Reply.Known.{Replied, Unknown, Restarted, maple_reply-Runs}
use cfp2dreamcast.Shim.Reply.Enumerate.{Holds, NoReset}
use cfp2dreamcast.Shim.Steady.{serve, shim_maple_steady}
use cfp2dreamcast.Shim.Steady.Latch.{serve_transmit-receive}
use cfp2dreamcast.Shim.Steady.Hook.{busy, shim_maple_steady-Runs}
use cfp2dreamcast.Shim.Steady.Walk.{Stopped}
use cfp2dreamcast.Shim.Reply.Frame.{Resets}
use cfp2dreamcast.Examples.Drive.{Job, rest, drive}
use cfp2dreamcast.Examples.Cart.{start, statics_at_boot}
use cfp2dreamcast.Examples.Bus.{empty, blobs}

-- The board is asked for its identification, to be answered at 0x0c300000.
mie_probe_reply-Answers_example :
    Answers 0x82 0x2082
      (p2addr 0x0c300000)
      0x0c200000
      start.ram
      (mie_probe_reply 0x82 0x2082 0x0c300000 0x0c200000 start.ram)
    × ((q : ℕ)
        → Misses q (p2addr 0x0c300000) 56
        → mie_probe_reply 0x82 0x2082 0x0c300000 0x0c200000 start.ram q ≡ start.ram q)
mie_probe_reply-Answers_example =
    mie_probe_reply-Answers 0x82 0x2082 0x0c300000 0x0c200000 start.ram

-- A live poll at 0x0c300000 leaves the byte at 0x0c300100.
maple_reply-Runs_example :
    Runs
      (Replied 0x0c300100 0x33 start)
      (Unknown 0x33 0x0c300000)
      (Restarted 0x33)
      (maple_reply drive empty blobs 0x33 0x0c300000 0 start)
unfolding p2addr
maple_reply-Runs_example =
    maple_reply-Runs drive empty 132 0x0c300100 (omega arith)
      (λ i h e. omega (arith, h), λ i h e. omega (arith, h)) (λ d m. ground arith) blobs
      (omega arith) (omega arith) 0x33 0x0c300000 0 start (λ i h e. omega arith)

-- A descriptor at `a`, the last of its list, with command `sub` and the byte 0xf1.
abbrev one : ℕ → ℕ → Ram → Ram
one a sub m = store32 a 0x80000003 (
    store32 (a + 4) 0x0c300000
      (store32 (a + 8) 0x2086 (store8 (a + 12) sub (store8 (a + 20) 0xf1 m))))

-- A list of one descriptor, which sends the board its address, and the pending transaction.
abbrev listed : Ram
listed q = store32 0x0cfd3018 1 (store32 0x0cfd3004 0x0c200000 (one 0x0c200000 0x17 (λ a. 0))) q

abbrev pump : M Job ℤ
pump s = returns (pos 0) (record s { ram = listed })

-- A frame's hook leaves a byte of the display's memory as the engine left it.
shim_maple_steady-Runs_example :
    Runs
      (λ r u. (r ≡ pos 0) × (busy u.ram ≡ false) × (u.ram 0x05000000 ≡ listed 0x05000000))
      Stopped
      Resets
      (shim_maple_steady drive empty blobs pump start)
unfolding p2addr
shim_maple_steady-Runs_example =
    shim_maple_steady-Runs drive empty blobs pump 132 0x05000000 (omega arith) (omega arith)
      (omega arith) (inl (omega arith)) (λ d m. ground arith) start
      (record start { ram = listed; statics = statics_at_boot }) (pos 0) refl

abbrev sending : Machine Job
sending = record start { ram = listed }

-- The machine when the transmit has been served.
abbrev sent : Machine Job
sent = record {
  ram = copy_in 0xac300000 blobs.mie_sub17 listed;
  dev = rest;
  statics = record statics_at_boot {
    pending_jvs = 0xf1;
    hud_marks = 0x82;
    counts = record statics_at_boot.counts { reply_ticks = 0x10001 };
  };
}

served : serve drive empty blobs 0x0c200000 sending ≡ returns tt sent
unfolding serve p2addr maple_reply
served = refl

-- The game then asks for the reply.
abbrev reading_back : Machine Job
reading_back = record sent { ram = one 0x0c200000 0x15 (λ a. 0) }

serve_transmit-receive_example :
    Runs
      (Holds 0x0c300000 blobs.mie_jvsf1)
      Never
      NoReset
      (serve drive empty blobs 0x0c200000 reading_back)
serve_transmit-receive_example =
    serve_transmit-receive drive empty blobs 0x0c200000 0x0c200000 0x17 blobs.mie_jvsf1 sending sent
      reading_back (refl, refl, refl, refl) (inl refl) served refl set_address (omega arith)
      (refl, refl, refl, refl) refl
