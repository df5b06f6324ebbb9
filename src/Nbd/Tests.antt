-- ===== src/Nbd/Tests.antt =====
-- The driver of the block device at concrete inputs, with the layout and the numbers of
-- linux/nbd.h.
use greencloud.Base.{
  ℕ, ◌≡◌, refl, true, List, [], ◌∷◌, ◌++◌, map, Bytes, some, done, fails, hangs, arith, replicate,
  take,
}
use greencloud.Base.Int.{pos}
use greencloud.Data.{DriverData, empty}
use greencloud.Data.Keys
use greencloud.Nbd.Order.{ntohl}
use greencloud.Nbd.Stream.{flat, read_all, read_all-short}
use greencloud.Nbd.Driver.{receive_request, send_reply}
use greencloud.Nbd.Framing.{receive_request-write, send_reply-answer, chunks, asked, struct_of}
use greencloud.Nbd.Layout.{nbd}
use greencloud.Nbd.Device.{NbdDriverProxy, no_flags}

abbrev head : Bytes
head =
    37 ∷ 96 ∷ 149 ∷ 19 ∷ 0 ∷ 0 ∷ 0 ∷ 1 ∷ 1 ∷ 2 ∷ 3 ∷ 4 ∷ 5 ∷ 6 ∷ 7 ∷ 8 ∷ 0 ∷ 0 ∷ 0 ∷ 0 ∷ 0 ∷ 0 ∷ 2
    ∷ 0 ∷ 0 ∷ 0 ∷ 0 ∷ 3 ∷ []

abbrev blank : DriverData
blank = record {
  offset = 0;
  req_id = pos 0;
  handler = [];
  len = 0;
  key = Keys.read;
  status = 7;
  buff = empty;
}

abbrev answer : DriverData
answer = record {
  offset = 0;
  req_id = pos 0;
  handler = 1 ∷ 2 ∷ 3 ∷ 4 ∷ 5 ∷ 6 ∷ 7 ∷ 8 ∷ [];
  len = 2;
  key = Keys.read;
  status = 0;
  buff = record { size = 0; cells = 65 ∷ 66 ∷ 67 ∷ [] };
}

abbrev driver : NbdDriverProxy
driver = record { connected = true; req_fd = 5; nbd_fd = 6; file_fd = 7 }

abbrev calls : ℕ → List (ℕ × ℕ)
calls blocks = (43777, 1024) ∷ (43783, blocks) ∷ (43780, no_flags) ∷ []

read_all-short_example :
    read_all (map some ((1 ∷ []) ∷ (2 ∷ []) ∷ []) ++ replicate 4 (some [])) 3 ≡ fails hangs
read_all-short_example = read_all-short ((1 ∷ []) ∷ (2 ∷ []) ∷ []) 3 4 (omega arith)

receive_request-write_example :
    (d : DriverData) × (left : List Bytes) × (receive_request nbd
        (λ n. 170)
        blank
        (some (head ++ 9 ∷ []) ∷ (map some ((8 ∷ 7 ∷ 6 ∷ []) ∷ []) ++ []))
      ≡ done (d, map some left ++ []))
    × (record d { buff = blank.buff }
        ≡ asked blank
            (1 ∷ 2 ∷ 3 ∷ 4 ∷ 5 ∷ 6 ∷ 7 ∷ 8 ∷ [])
            (0 ∷ 0 ∷ 0 ∷ 0 ∷ 0 ∷ 0 ∷ 2 ∷ 0 ∷ [])
            (0 ∷ 0 ∷ 0 ∷ 3 ∷ []))
    × (take 3 d.buff.cells ++ flat left ≡ flat (chunks (9 ∷ []) ((8 ∷ 7 ∷ 6 ∷ []) ∷ [])))
receive_request-write_example =
    receive_request-write nbd (λ n. 170) blank head (9 ∷ []) (37 ∷ 96 ∷ 149 ∷ 19 ∷ [])
      (0 ∷ 0 ∷ 0 ∷ 1 ∷ []) (0 ∷ 0 ∷ 0 ∷ 0 ∷ 0 ∷ 0 ∷ 2 ∷ 0 ∷ []) (0 ∷ 0 ∷ 0 ∷ 3 ∷ [])
      ((8 ∷ 7 ∷ 6 ∷ []) ∷ []) [] refl
      (refl, (omega arith, (omega arith, (omega arith, (omega arith, tt)))))
      (refl, (omega arith, (omega arith, (omega arith, (omega arith, tt)))))
      (
        refl,
        (
          omega arith,
          (
            omega arith,
            (
              omega arith,
              (omega arith, (omega arith, (omega arith, (omega arith, (omega arith, tt))))),
            ),
          ),
        ),
      )
      (refl, (omega arith, (omega arith, (omega arith, (omega arith, tt))))) refl refl refl refl
      refl refl (omega arith) (omega arith)

send_reply-answer_example :
    (left : List ℕ) × (send_reply nbd (map some (replicate 20 3)) answer
      ≡ done (struct_of nbd answer ++ (65 ∷ 66 ∷ []), map some left))
unfolding ntohl
send_reply-answer_example =
    send_reply-answer nbd (replicate 20 3) answer (omega arith) (λ r. omega arith) (omega arith)
