-- ===== src/Logger.antt =====
-- log.h and logs.cpp: the logger, a ring of records that the main thread fills and a thread of its own
-- writes to the log file. A move is one access to what the two threads share, and moves interleave in any
-- order; the times printed with the messages, and what opening the file returns, are not modelled.
pub mod Slots
pub mod Invariant
pub mod Moves
pub mod Reads
pub mod Delivery
pub mod Progress
pub mod Rounds
pub mod Exit
pub mod Drain
use real_time_cr.Prelude.{
  ltb, leb, ◌==◌, if◌then◌else◌, length, take, out_of_range, Exec, ok, fault, ℕ, ◌+◌, ◌-◌, ◌%◌, ◌^◌,
  Bool, true, false, not, ◌&&◌, ◌||◌, List, [], ◌∷◌, ◌++◌,
}
use real_time_cr.Words.{narrow, lt32}

abbrev pub msg_size : ℕ
msg_size = 768

abbrev pub logger_queue_size : ℕ
logger_queue_size = 10000

-- The levels from TRACE to REVY.
abbrev pub info : ℕ
info = 2

abbrev pub perf : ℕ
perf = 5

abbrev pub level_count : ℕ
level_count = 7

-- The message is the string up to its zero byte; the level is `uint32_t`.
pub record LogMsg : Type 0 where
  pub message : List ℕ
  pub level : ℕ

-- The constructors: a text after formatting, and no text.
abbrev pub new_log_msg : ℕ → List ℕ → LogMsg
new_log_msg level text = record { message = take (msg_size - 1) text; level = narrow level }

abbrev pub no_log_msg : LogMsg
no_log_msg = record { message = []; level = 2 ^ 32 - 1 }

-- `LogMsg::set` copies without a bound; the fault is a write behind the array. `reset` gives `no_log_msg`.
unfoldable pub set_log_msg : ℕ → List ℕ → Exec LogMsg
set_log_msg level text =
    if leb msg_size (length text) then fault out_of_range else ok (new_log_msg level text)

-- `_flag` and `_records` are arrays, given as functions of the index.
pub record Logger : Type 0 where
  pub log_file_path : List ℕ
  pub log_level : ℕ
  pub core_id : ℕ
  pub read_index : ℕ
  pub write_index : ℕ
  pub records : ℕ → LogMsg
  pub flag : ℕ → Bool
  pub exit : Bool

abbrev pub new_logger : Logger
new_logger = record {
  log_file_path = [];
  log_level = info;
  core_id = 0;
  read_index = 0;
  write_index = 0;
  records = λ _. no_log_msg;
  flag = λ _. false;
  exit = false;
}

-- The level is an `int`.
unfoldable pub set_level : ℕ → Logger → Logger
set_level level l = if lt32 level 0 || lt32 perf level then l else record l { log_level = level }

-- `setDump`; the thread that it starts is `Reader` below.
unfoldable pub set_dump : List ℕ → ℕ → Logger → Logger
set_dump path core l = record l { log_file_path = path; core_id = core }

unfoldable pub set_dump_core : ℕ → Logger → Logger
set_dump_core core l = record l { core_id = core }

-- A change of one slot of an array.
abbrev pub update {ℓ} : {A : Type ℓ} → (ℕ → A) → ℕ → A → ℕ → A
update f i x j = if j == i then x else f j

-- The main thread, in a call of `log` or between two.
pub data Writer : Type 0 where
  between : Writer
  waiting : (queue_pos : ℕ) → LogMsg → Writer
  storing : (queue_pos : ℕ) → LogMsg → Writer
  flagging : (queue_pos : ℕ) → Writer

-- `backgroundThread`: its two loops, and a crash on a level that `levels` does not have.
pub data Reader : Type 0 where
  start : Reader
  spinning : (current_read : ℕ) → Reader
  taking : (current_read : ℕ) → Reader
  clearing : (current_read : ℕ) → LogMsg → Reader
  printing : LogMsg → Reader
  draining : Reader
  checking : (current_read : ℕ) → Reader
  drain_taking : (current_read : ℕ) → Reader
  drain_clearing : (current_read : ℕ) → LogMsg → Reader
  drain_printing : LogMsg → Reader
  done crashed : Reader

-- The threads, what the file holds, and the messages that calls of `log` have accepted.
pub record System : Type 0 where
  pub logger : Logger
  pub writer : Writer
  pub reader : Reader
  pub output : List LogMsg
  pub logged : List LogMsg

abbrev pub init : System
init = record { logger = new_logger; writer = between; reader = start; output = []; logged = [] }

-- The index is `unsigned long long`.
abbrev pub next_index : ℕ → ℕ
next_index i = (i + 1) % 2 ^ 64

-- `log`, up to the slot that it takes; a level above PERF is dropped.
unfoldable pub log : ℕ → List ℕ → System → System
log level text s = elim s.writer [
  | between ↦
      let l = s.logger in
      let m = new_log_msg level text in
      if lt32 perf level then s else record s {
        logger = record l { write_index = next_index l.write_index };
        writer = waiting (l.write_index % logger_queue_size) m;
        logged = s.logged ++ (m ∷ []);
      }
  | _ ↦ s
]

-- The template of `log` has the same body; its text is what `snprintf` makes of the arguments.
abbrev pub log_formatted : ℕ → List ℕ → System → System
log_formatted level text s = log level text s

-- The next move of a call of `log`: the wait for room, the record and its flag.
unfoldable pub write_move : System → System
write_move s =
    let l = s.logger in
    elim s.writer [
      | between ↦ s
      | waiting pos m ↦
          if leb ((l.read_index + logger_queue_size) % 2 ^ 64) l.write_index
          then s
          else record s { writer = storing pos m }
      | storing pos m ↦ record s {
        logger = record l { records = update l.records pos m };
        writer = flagging pos;
      }
      | flagging pos ↦ record s {
        logger = record l { flag = update l.flag pos true };
        writer = between;
      }
    ]

-- `levels[record._level]`, and the line.
unfoldable pub print : LogMsg → Reader → System → System
print m next s =
    if ltb m.level level_count
    then record s { reader = next; output = s.output ++ (m ∷ []) }
    else record s { reader = crashed }

-- The record moves out of its slot, and its destructor leaves the slot empty.
unfoldable pub take_record : ℕ → Reader → System → System
take_record c next s =
    let l = s.logger in
    record s { logger = record l { records = update l.records c no_log_msg }; reader = next }

unfoldable pub clear_flag : ℕ → Reader → System → System
clear_flag c next s =
    let l = s.logger in
    record s { logger = record l { flag = update l.flag c false }; reader = next }

unfoldable pub fetch_read : (ℕ → Reader) → System → System
fetch_read next s =
    let l = s.logger in
    record s {
      logger = record l { read_index = next_index l.read_index };
      reader = next (l.read_index % logger_queue_size);
    }

-- The next move of `backgroundThread`.
unfoldable pub read_move : System → System
read_move s =
    let l = s.logger in
    elim s.reader [
      | start ↦ if l.exit then record s { reader = draining } else fetch_read spinning s
      | spinning c ↦ if not l.exit && not (l.flag c) then s else record s { reader = taking c }
      | taking c ↦ take_record c (clearing c (l.records c)) s
      | clearing c m ↦ clear_flag c (printing m) s
      | printing m ↦ print m start s
      | draining ↦ fetch_read checking s
      | checking c ↦ record s { reader = if l.flag c then drain_taking c else done }
      | drain_taking c ↦ take_record c (drain_clearing c (l.records c)) s
      | drain_clearing c m ↦ clear_flag c (drain_printing m) s
      | drain_printing m ↦ print m draining s
      | done ↦ s
      | crashed ↦ s
    ]

unfoldable pub exit : System → System
exit s = let l = s.logger in record s { logger = record l { exit = true } }
