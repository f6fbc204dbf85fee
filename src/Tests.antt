-- ===== src/Tests.antt =====
-- Runs of the model at concrete inputs, and instances of its theorems: TaskTests for the task store,
-- AppTests for the state store and the checks before a write, StoreTests for paths, landed events and
-- the smaller stores, TableTests for the tables and versions, MessageTests for the messages, and DeskTests
-- for clicks and calls, PanelTests for the preferences and the cleanup panel.
mod PanelTests
mod DeskTests
mod MessageTests
mod TaskTests
mod AppTests
mod StoreTests
mod TableTests
