-- ===== src/Bot.antt =====
-- The dispatch of packets (bot/event.go, bot/ingame.go), the login (bot/login.go) and the
-- configuration (bot/configuration.go) of the bot, and its handlers (bot/basic).
pub mod Events
pub mod Game
pub mod Login
pub mod Configuration
pub mod Basic
