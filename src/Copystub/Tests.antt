-- ===== src/Copystub/Tests.antt =====
-- The property of the stub at a concrete program, which overlaps its own source.
use ftx.Base.{◌+◌, ◌≡◌, arith, some, if◌then◌else◌}
use ftx.Copystub.{Memory, copystub_main}
use ftx.Copystub.Move.{moved}
use ftx.Copystub.Clear.{cleared, copystub_main_lem}

-- Four bytes at 0x06004000, to be moved up by two, with both RAMs cleared.
abbrev ram : Memory
ram a = a + 1

copystub_main_lem_example :
    copystub_main 3 ram 0x06004000 4 0x06004002
    ≡ some (
      (λ a. if cleared 3 4 0x06004002 a then 0 else moved ram 0x06004000 4 0x06004002 a),
      0x06004002,
    )
copystub_main_lem_example =
    copystub_main_lem 3 ram 0x06004000 4 0x06004002 (omega arith) (omega arith)
