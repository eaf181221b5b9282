-- ===== src/Queue/Window.antt =====
-- zsim/src/prio_queue.h: the blocks that the events of a window of `span` blocks use.
use csce614_group_project.Base.{ℕ, ◌+◌, ◌%◌, ◌<◌, ◌≤◌, ◌≡◌, arith}

pub window_once : (span a b : ℕ) → a ≤ b → b < a + span → a % span ≡ b % span → a ≡ b
window_once span a b l l' e = grind arith

pub add_span : (span a : ℕ) → (a + span) % span ≡ a % span
add_span span a = grind arith
