-- ===== src/Logger.antt =====
-- src/logger.cc and src/include/logger.h: the logger. A write is filtered, and then printed by its
-- thread or queued for the worker thread, which takes the whole queue at a time. Each operation is
-- what one thread does under one lock; the worker prints its batch with no lock held. Formatting
-- by the local time is code of the C library: the parameter `format_line`.
pub mod Order
use hxrpc.Common.{
  ℕ, Bool, true, false, List, [], ◌∷◌, ◌++◌, Option, none, some, Bytes, codes, is_empty, ltb,
  if◌then◌else◌, Expected, value, unexpected,
}
use hxrpc.Settings.Build.{LoggerOptions}
use hxrpc.Settings.Parse.{LogLevel}

pub record LogEntry : Type 0 where
  pub level : LogLevel
  pub timestamp : ℕ
  pub message : Bytes

-- `file` is the open file's lines, or `none`; `err` those of the standard error stream.
pub record LoggerImpl : Type 0 where
  pub options : LoggerOptions
  pub queue : List LogEntry
  pub batch : List LogEntry
  pub stopping : Bool
  pub file : Option (List Bytes)
  pub err : List Bytes

-- The order of the enumerators.
abbrev pub rank : LogLevel → ℕ
rank LogLevel.info = 0
rank LogLevel.warn = 1
rank LogLevel.error = 2

-- What the file system gives: the error of create_directories, if the path has a parent, and
-- the lines of the file, if it opens.
pub record FileSteps : Type 0 where
  pub directory_error : Option Bytes
  pub opened : Option (List Bytes)

-- Configure, on the steps that the path needs.
open_file : FileSteps → Bytes → Expected (Option (List Bytes)) Bytes
open_file steps [] = value none
open_file steps (c ∷ path) = elim steps.directory_error [
  | some reason ↦ unexpected (codes "failed to create log directory: " ++ reason)
  | none ↦ elim steps.opened [
    | none ↦ unexpected (codes "failed to open log file: " ++ c ∷ path)
    | some lines ↦ value (some lines)
  ]
]

install :
    Expected (Option (List Bytes)) Bytes
    → LoggerOptions
    → LoggerImpl
    → Expected (Unit {0}) Bytes × LoggerImpl
install (unexpected e) options l = (unexpected e, l)
install (value file) options l = (value tt, record l { options = options; file = file })

-- LoggerImpl::Configure
unfoldable pub configure :
    FileSteps → LoggerOptions → LoggerImpl → Expected (Unit {0}) Bytes × LoggerImpl
unfolding open_file install
configure steps options l = install (open_file steps options.file_path) options l

abbrev add_line : Bytes → Option (List Bytes) → Option (List Bytes)
add_line line none = none
add_line line (some lines) = some (lines ++ line ∷ [])

module _ (format_line : LogEntry → Bytes) where
  -- LoggerImpl::WriteUnlocked of FormatLine
  unfoldable pub write_unlocked : LogEntry → LoggerImpl → LoggerImpl
  write_unlocked e l = record l {
    file = add_line (format_line e) l.file;
    err = if l.options.stderr_enabled then l.err ++ format_line e ∷ [] else l.err;
  }

  -- LoggerImpl::Write
  unfoldable pub write : LogEntry → LoggerImpl → LoggerImpl
  write e l =
      if ltb (rank e.level) (rank l.options.min_level)
      then l
      else if l.options.async_enabled
      then record l { queue = l.queue ++ e ∷ [] }
      else write_unlocked e l

  -- Run: the inner loop takes the queue, behind what the batch holds.
  unfoldable pub take_batch : LoggerImpl → LoggerImpl
  take_batch l = record l { batch = l.batch ++ l.queue; queue = [] }

  write_first : List LogEntry → LoggerImpl → LoggerImpl
  unfolding write_unlocked
  write_first [] l = l
  write_first (e ∷ es) l = write_unlocked e (record l { batch = es })

  -- WriteBatch: its next entry.
  unfoldable pub write_next : LoggerImpl → LoggerImpl
  unfolding write_first
  write_next l = write_first l.batch l

-- The destructor's flag.
unfoldable pub stop : LoggerImpl → LoggerImpl
stop l = record l { stopping = true }

-- Run: whether the worker leaves its loop.
unfoldable pub has_ended : LoggerImpl → Bool
has_ended l = if l.stopping then (if is_empty l.queue then is_empty l.batch else false) else false

-- A run of the writers and the worker, with no Configure in it, and the entries that were written,
-- in order. The worker of the source takes a batch only when the last one is printed; here it may do
-- so earlier, and puts the entries behind those that are left.
pub data Logs (format_line : LogEntry → Bytes)
    : LoggerImpl → List LogEntry → LoggerImpl → Type 0 where
  end : {l : LoggerImpl} → Logs format_line l [] l
  writes :
      {l m : LoggerImpl} {es : List LogEntry} (e : LogEntry)
      → Logs format_line (write format_line e l) es m
      → Logs format_line l (e ∷ es) m
  takes :
      {l m : LoggerImpl} {es : List LogEntry}
      → Logs format_line (take_batch format_line l) es m
      → Logs format_line l es m
  prints :
      {l m : LoggerImpl} {es : List LogEntry}
      → Logs format_line (write_next format_line l) es m
      → Logs format_line l es m
  stops :
      {l m : LoggerImpl} {es : List LogEntry}
      → Logs format_line (stop l) es m
      → Logs format_line l es m
