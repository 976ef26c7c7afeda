-- ===== src/Sip/Agent/Valid/Life.antt =====
-- What holds of the agent of src/gb28181/sip_agent.cpp through its life.
